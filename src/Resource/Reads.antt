-- ===== src/Resource/Reads.antt =====
-- The methods of the controller that only read, and its start:
-- src/linksmart.eu/lc/core/catalog/resource/controller.go.
-- The loops over pages take fuel, the number of rounds left.
pub mod Pages
pub mod Scan
pub mod Lookup
pub mod Panics
use lslc_core.Common.{
  ℕ, zero, suc, ◌+◌, ◌*◌, String, Bool, true, false, List, [], ◌∷◌, ◌++◌, Option, none, some,
  Result, ok, err, ◌>>=◌, result_map, if◌then◌else◌, ◌==◌, leb, eqb, length, take, drop, map,
}
use lslc_core.Common.Int.{ℤ, pos}
use lslc_core.Common.Texts.{split}
use lslc_core.Json.{Json}
use lslc_core.Paging.{get_paging_attr}
use lslc_core.PathFilter.{
  MatchError, unable_to_parse, unknown_operation, match_object, panicked as assertion_failed,
}
use lslc_core.Tree.Nodes.{Map}
use lslc_core.Resource.{
  Device, SimpleDevice, Resource, CatalogError, not_found, bad_request, other, panicked, simplify,
  simplify_all,
}
use lslc_core.Resource.Encode.{simple_device_json, resource_json}
use lslc_core.Resource.Store.{max_per_page, unable_to_paginate}
use lslc_core.Resource.State.{Env, Controller, rid_key, add_indices}

-- `slice[offset : offset+limit]`
abbrev pub cut {ℓ} : {A : Type ℓ} → ℕ × ℕ → List A → List A
cut w l = take w.1 (drop w.0 l)

-- GetPagingAttr with its error wrapped in a BadRequestError.
unfoldable pub paginate {ℓ} : {A : Type ℓ} → List A → ℤ → ℤ → Result CatalogError (List A × ℕ)
paginate matches page per_page =
    elim (get_paging_attr (length matches) page per_page max_per_page) [
      | err x ↦ err (unable_to_paginate x)
      | ok w ↦ ok (cut w matches, length matches)
    ]

-- An error of MatchObject, as the callers return it.
abbrev pub match_error : MatchError → CatalogError
match_error assertion_failed = panicked "interface conversion"
match_error unable_to_parse = other "Unable to parse object into JSON"
match_error unknown_operation = other "Unknown filter operation"

-- The objects of a list that match, or the first error.
unfoldable pub matching {ℓ} :
    {A : Type ℓ} → (A → Result MatchError Bool) → List A → Result CatalogError (List A)
matching test [] = ok []
matching test (x ∷ xs) =
    let rest = matching test xs in
    elim (test x) [
      | err m ↦ err (match_error m)
      | ok b ↦ result_map (λ l. if b then x ∷ l else l) rest
    ]

-- The resource with an id in a device: the loop of getResource.
unfoldable pub find_resource : String → List Resource → Option Resource
find_resource id [] = none
find_resource id (r ∷ rs) = if r.id == id then some r else find_resource id rs

module _ (e : Env) where
  -- get
  unfoldable pub get : Controller e → String → Result CatalogError SimpleDevice
  get c id = result_map simplify (e.storage.get id c.storage)

  -- list
  unfoldable pub list : Controller e → ℤ → ℤ → Result CatalogError (List SimpleDevice × ℕ)
  list c page per_page =
      result_map (λ (r : List Device × ℕ). (simplify_all r.0, r.1))
        (e.storage.list page per_page c.storage)

  -- total and totalResources
  unfoldable pub total : Controller e → Result CatalogError ℕ
  total c = e.storage.total c.storage

  unfoldable pub total_resources : Controller e → Result CatalogError ℕ
  total_resources c = ok (e.rid_tree.len c.rid_did)

  -- getResource
  unfoldable pub get_resource : Controller e → String → Result CatalogError Resource
  get_resource c id = elim (e.rid_tree.find (rid_key e id) c.rid_did) [
    | none ↦ err (not_found "Resource not found")
    | some m ↦ e.storage.get m.value c.storage >>= λ device.
        elim (find_resource id device.resources) [
          | none ↦ err (not_found "Parent device not found")
          | some r ↦ ok r
        ]
  ]

  -- addIndices of the devices of a page.
  unfoldable pub index_all :
      List Device → Controller e → Controller e × Result CatalogError (Unit {0})
  index_all [] c = (c, ok tt)
  index_all (d ∷ ds) c =
      let (c', r) = add_indices e c d in elim r [ err x ↦ (c', err x) | ok _ ↦ index_all ds c' ]

  -- The loop of initIndices, from a page on, with the rounds that are left.
  unfoldable pub init_from : ℕ → ℕ → Controller e → Controller e × Result CatalogError (Unit {0})
  init_from zero page c = (c, err (other "out of fuel"))
  init_from (suc fuel) page c = elim (e.storage.list (pos page) (pos max_per_page) c.storage) [
    | err x ↦ (c, err x)
    | ok (devices, total_) ↦
        let (c', r) = index_all devices c in
        elim r [
          | err x ↦ (c', err x)
          | ok _ ↦ elim (leb total_ (page * max_per_page)) [
            | true ↦ (c', ok tt)
            | false ↦ init_from fuel (suc page) c'
          ]
        ]
  ]

  -- The loop of filter over the pages of the storage, from a page on: the devices that match.
  unfoldable pub scan :
      (SimpleDevice → Result MatchError Bool)
      → ℕ
      → ℕ
      → Controller e
      → Result CatalogError (List SimpleDevice)
  scan test zero page c = err (other "out of fuel")
  scan test (suc fuel) page c = elim (e.storage.list (pos page) (pos max_per_page) c.storage) [
    | err x ↦ err x
    | ok (slice, total_) ↦ matching test (simplify_all slice) >>= λ here.
        elim (leb total_ (page * max_per_page)) [
          | true ↦ ok here
          | false ↦ result_map (λ later. here ++ later) (scan test fuel (suc page) c)
        ]
  ]

  -- The test of filter: MatchObject at the path that the dots divide.
  unfoldable pub matches_device : String → String → String → SimpleDevice → Result MatchError Bool
  matches_device path op value d =
      match_object e.format.print_composite (some (simple_device_json e.format d)) (split path b'.')
        op value

  -- filter, with the rounds of its loop that may be made
  unfoldable pub filter :
      ℕ
      → Controller e
      → String
      → String
      → String
      → ℤ
      → ℤ
      → Result CatalogError (List SimpleDevice × ℕ)
  unfolding matches_device
  filter fuel c path op value page per_page =
      scan (matches_device path op value) fuel 1 c >>= λ found. paginate found page per_page

  -- The loop of listResources. A device that was read before is taken from a cache there, which
  -- gives the same: nothing is written while the methods that read hold the lock.
  unfoldable pub collect : Controller e → List (Map String) → Result CatalogError (List Resource)
  collect c [] = ok []
  collect c (m ∷ ms) =
      let rest = collect c ms in
      e.storage.get m.value c.storage >>= λ d.
      result_map (λ l. elim (find_resource m.key d.resources) [ none ↦ l | some r ↦ r ∷ l ]) rest

  -- listResources
  unfoldable pub list_resources : Controller e → ℤ → ℤ → Result CatalogError (List Resource × ℕ)
  unfolding collect
  list_resources c page per_page =
      let total_ = e.rid_tree.len c.rid_did in
      elim (get_paging_attr total_ page per_page max_per_page) [
        | err x ↦ err (unable_to_paginate x)
        | ok w ↦
            if eqb w.1 0
            then ok ([], total_)
            else result_map (λ l. (l, total_)) (collect c (cut w (e.rid_tree.items c.rid_did)))
      ]

  unfoldable pub matches_resource : String → String → String → Resource → Result MatchError Bool
  matches_resource path op value r =
      match_object e.format.print_composite (some (resource_json e.format r)) (split path b'.') op
        value

  -- The resources of a device that have an id.
  unfoldable pub with_id : String → List Resource → List Resource
  with_id id [] = []
  with_id id (r ∷ rs) = let rest = with_id id rs in if r.id == id then r ∷ rest else rest

  -- The loop of filterResources.
  unfoldable pub scan_resources :
      (Resource → Result MatchError Bool)
      → Controller e
      → List (Map String)
      → Result CatalogError (List Resource)
  unfolding with_id
  scan_resources test c [] = ok []
  scan_resources test c (m ∷ ms) =
      let rest = scan_resources test c ms in
      e.storage.get m.value c.storage >>= λ d.
      matching test (with_id m.key d.resources) >>= λ here. result_map (λ later. here ++ later) rest

  -- filterResources
  unfoldable pub filter_resources :
      Controller e → String → String → String → ℤ → ℤ → Result CatalogError (List Resource × ℕ)
  unfolding matches_resource scan_resources
  filter_resources c path op value page per_page =
      scan_resources (matches_resource path op value) c (e.rid_tree.items c.rid_did) >>= λ found.
      paginate found page per_page
