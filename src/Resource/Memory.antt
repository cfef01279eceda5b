-- ===== src/Resource/Memory.antt =====
-- The in-memory storage of devices: src/linksmart.eu/lc/core/catalog/resource/memstorage.go.
-- Its state is an ordered tree of devices; the lock makes each operation one step.
pub mod Laws
use Prim.Native.Nat.{Ordering}
use lslc_core.Common.{
  ℕ, ◌<◌, String, Bool, true, false, ◌≡◌, refl, ap, sym, ◌∙◌, List, [], ◌∷◌, Option, none, some,
  Result, ok, err, if◌then◌else◌, ◌==◌, eq_iff, arith, eqb, take, drop, length, Option-cases,
  Bool-cases, Result-cases, inl, inr,
}
use lslc_core.Common.Int.{ℤ}
use lslc_core.Common.Words.{concat}
use lslc_core.Json.{end}
use lslc_core.Paging.{PagingError, get_paging_attr}
use lslc_core.Tree.{UniqueTree, is_zero}
use lslc_core.Tree.Nodes.{str_lt, str_gt}
use lslc_core.Resource.{Device, CatalogError, not_found, conflict, bad_request}
use lslc_core.Resource.Store.{CatalogStorage, max_per_page}
use lslc_core.Resource.Store.{unable_to_paginate}

-- operator: devices are compared by their ids
unfoldable pub operator : Device → Device → Ordering
operator a b =
    if str_lt a.id b.id then Ordering.lt else if str_gt a.id b.id then Ordering.gt else Ordering.eq

-- `Device{Id: id}`
abbrev pub probe : String → Device
probe id = record {
  id = id;
  url = "";
  type = "";
  name = "";
  meta = end;
  description = "";
  ttl = 0;
  created = 0;
  updated = 0;
  expires = none;
  resources = [];
}

missing : String → CatalogError
missing id = not_found (concat ("Device with id " ∷ id ∷ " is not found" ∷ []))

-- The loop that copies `limit` devices from the offset.
abbrev pub page_of : ℕ × ℕ → List Device → List Device
page_of w data_ = take w.1 (drop w.0 data_)

module _ (t : UniqueTree Device operator) where
  unfoldable pub add : Device → t.Tree → t.Tree × Result CatalogError (Unit {0})
  add d s =
      let (s', duplicate) = t.add d s in
      (
        s',
        if duplicate
            then err (conflict (concat ("Device id " ∷ d.id ∷ " is not unique" ∷ [])))
            else ok tt,
      )

  unfoldable pub get : String → t.Tree → Result CatalogError Device
  unfolding missing
  get id s = elim (t.find (probe id) s) [ none ↦ err (missing id) | some d ↦ ok d ]

  unfoldable pub update : String → Device → t.Tree → t.Tree × Result CatalogError (Unit {0})
  unfolding missing
  update id d s =
      let (s', r) = t.remove (probe id) s in
      elim r [ none ↦ (s', err (missing id)) | some old ↦ ((t.add d s').0, ok tt) ]

  unfoldable pub delete : String → t.Tree → t.Tree × Result CatalogError (Unit {0})
  unfolding missing
  delete id s =
      let (s', r) = t.remove (probe id) s in
      elim r [ none ↦ (s', err (missing id)) | some old ↦ (s', ok tt) ]

  -- An empty page is reported with a total of 0, whatever the storage holds.
  unfoldable pub list : ℤ → ℤ → t.Tree → Result CatalogError (List Device × ℕ)
  list page per_page s = elim (get_paging_attr (t.len s) page per_page max_per_page) [
    | err x ↦ err (unable_to_paginate x)
    | ok (offset, limit) ↦
        if eqb limit 0 then ok ([], 0) else ok (page_of (offset, limit) (t.items s), t.len s)
  ]

  unfoldable pub total : t.Tree → Result CatalogError ℕ
  total s = ok (t.len s)
