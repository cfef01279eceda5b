-- ===== src/Resource/Store.antt =====
-- The CatalogStorage interface of src/linksmart.eu/lc/core/catalog/resource/catalog.go, with what
-- its users rely on. A storage is seen through `view`, the device stored under an id, and
-- `devices`, the stored devices in the order in which `list` pages through them.
use lslc_core.Common.{
  ℕ, ◌<◌, ◌≤◌, String, ◌≡◌, List, Option, none, some, Result, ok, err, length, take, drop,
  if◌then◌else◌, ◌==◌,
}
use lslc_core.Common.Int.{ℤ}
use lslc_core.Common.{[], ◌∷◌}
use lslc_core.Common.Words.{concat}
use lslc_core.Paging.{PagingError, error_text, get_paging_attr}
use lslc_core.Resource.{Device, CatalogError, not_found, bad_request}

abbrev pub max_per_page : ℕ
max_per_page = 100

-- The error of a page that cannot be served, as the storages and the controllers return it.
abbrev pub unable_to_paginate : PagingError → CatalogError
unable_to_paginate x =
    bad_request (concat ("Unable to paginate: " ∷ error_text max_per_page x ∷ []))

pub record CatalogStorage : Type 1 where
  pub State : Type 0
  pub add : Device → State → State × Result CatalogError (Unit {0})
  pub get : String → State → Result CatalogError Device
  pub update : String → Device → State → State × Result CatalogError (Unit {0})
  pub delete : String → State → State × Result CatalogError (Unit {0})
  pub list : ℤ → ℤ → State → Result CatalogError (List Device × ℕ)
  pub total : State → Result CatalogError ℕ
  pub view : State → String → Option Device
  pub devices : State → List Device
  -- A device is returned only where it is stored, and is reported missing only where none is.
  pub get_ok : (id : String) (s : State) (d : Device) → get id s ≡ ok d → view s id ≡ some d
  pub get_missing :
      (id : String) (s : State) (m : String) → get id s ≡ err (not_found m) → view s id ≡ none
  -- A success stores the device under a new id; a failure stores nothing.
  pub add_ok :
      (d : Device) (s : State)
      → (add d s).1 ≡ ok tt
      → (view s d.id ≡ none)
        × ((j : String) → view (add d s).0 j ≡ (if d.id == j then some d else view s j))
  pub add_err :
      (d : Device) (s : State) (e : CatalogError)
      → (add d s).1 ≡ err e
      → (j : String) → view (add d s).0 j ≡ view s j
  pub update_ok :
      (id : String) (d d' : Device) (s : State)
      → view s id ≡ some d'
      → d.id ≡ id
      → (update id d s).1 ≡ ok tt
      → (j : String) → view (update id d s).0 j ≡ (if id == j then some d else view s j)
  pub update_err :
      (id : String) (d : Device) (s : State) (e : CatalogError)
      → (update id d s).1 ≡ err e
      → (j : String) → view (update id d s).0 j ≡ view s j
  pub delete_ok :
      (id : String) (s : State)
      → (delete id s).1 ≡ ok tt
      → (j : String) → view (delete id s).0 j ≡ (if id == j then none else view s j)
  pub delete_err :
      (id : String) (s : State) (e : CatalogError)
      → (delete id s).1 ≡ err e
      → (j : String) → view (delete id s).0 j ≡ view s j
  -- A page holds the devices at its offset and limit, and the total is reported with it.
  pub list_ok :
      (page per_page : ℤ) (s : State) (ds : List Device) (t : ℕ)
      → list page per_page s ≡ ok (ds, t)
      → (offset : ℕ) × (limit : ℕ) × (get_paging_attr
            (length (devices s))
            page
            per_page
            max_per_page
          ≡ ok (offset, limit))
        × (ds ≡ take limit (drop offset (devices s)))
        × (0 < limit → t ≡ length (devices s))
        × (t ≤ length (devices s))

-- A storage that never fails where it could succeed.
pub record IsReliable (s : CatalogStorage) (x : s.State) : Type 0 where
  pub got : (id : String) (d : Device) → s.view x id ≡ some d → s.get id x ≡ ok d
  pub paged :
      (page per_page : ℤ) (w : ℕ × ℕ)
      → get_paging_attr (length (s.devices x)) page per_page max_per_page ≡ ok w
      → (r : List Device × ℕ) × (s.list page per_page x ≡ ok r)
