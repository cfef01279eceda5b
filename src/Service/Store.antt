-- ===== src/Service/Store.antt =====
-- The CatalogStorage interface of src/linksmart.eu/lc/core/catalog/service/catalog.go, with what
-- its users rely on. A storage is seen through `view`, the service stored under an id, and
-- `services`, the stored services in the order in which `list` pages through them.
use lslc_core.Common.{
  ℕ, ◌<◌, ◌≤◌, String, ◌≡◌, List, Option, none, some, Result, ok, err, length, take, drop,
  if◌then◌else◌, ◌==◌,
}
use lslc_core.Common.Int.{ℤ}
use lslc_core.Paging.{get_paging_attr}
use lslc_core.Resource.{CatalogError, not_found}
use lslc_core.Service.{Service}

abbrev pub max_per_page : ℕ
max_per_page = 100

pub record CatalogStorage : Type 1 where
  pub State : Type 0
  pub add : Service → State → State × Result CatalogError (Unit {0})
  pub get : String → State → Result CatalogError Service
  pub update : String → Service → State → State × Result CatalogError (Unit {0})
  pub delete : String → State → State × Result CatalogError (Unit {0})
  pub list : ℤ → ℤ → State → Result CatalogError (List Service × ℕ)
  pub total : State → Result CatalogError ℕ
  pub view : State → String → Option Service
  pub services : State → List Service
  -- A service is returned only where it is stored, and is reported missing only where none is.
  pub get_ok : (id : String) (s : State) (d : Service) → get id s ≡ ok d → view s id ≡ some d
  pub get_missing :
      (id : String) (s : State) (m : String) → get id s ≡ err (not_found m) → view s id ≡ none
  -- A success stores the service under a new id; a failure stores nothing.
  pub add_ok :
      (d : Service) (s : State)
      → (add d s).1 ≡ ok tt
      → (view s d.id ≡ none)
        × ((j : String) → view (add d s).0 j ≡ (if d.id == j then some d else view s j))
  pub add_err :
      (d : Service) (s : State) (e : CatalogError)
      → (add d s).1 ≡ err e
      → (j : String) → view (add d s).0 j ≡ view s j
  pub update_ok :
      (id : String) (d d' : Service) (s : State)
      → view s id ≡ some d'
      → d.id ≡ id
      → (update id d s).1 ≡ ok tt
      → (j : String) → view (update id d s).0 j ≡ (if id == j then some d else view s j)
  pub update_err :
      (id : String) (d : Service) (s : State) (e : CatalogError)
      → (update id d s).1 ≡ err e
      → (j : String) → view (update id d s).0 j ≡ view s j
  pub delete_ok :
      (id : String) (s : State)
      → (delete id s).1 ≡ ok tt
      → (j : String) → view (delete id s).0 j ≡ (if id == j then none else view s j)
  pub delete_err :
      (id : String) (s : State) (e : CatalogError)
      → (delete id s).1 ≡ err e
      → (j : String) → view (delete id s).0 j ≡ view s j
  -- A page holds the services at its offset and limit, and the total is reported with it.
  pub list_ok :
      (page per_page : ℤ) (s : State) (ds : List Service) (t : ℕ)
      → list page per_page s ≡ ok (ds, t)
      → (offset : ℕ) × (limit : ℕ) × (get_paging_attr
            (length (services s))
            page
            per_page
            max_per_page
          ≡ ok (offset, limit))
        × (ds ≡ take limit (drop offset (services s)))
        × (0 < limit → t ≡ length (services s))
        × (t ≤ length (services s))

-- A storage that never fails where it could succeed.
pub record IsReliable (s : CatalogStorage) (x : s.State) : Type 0 where
  pub got : (id : String) (d : Service) → s.view x id ≡ some d → s.get id x ≡ ok d
  pub paged :
      (page per_page : ℤ) (w : ℕ × ℕ)
      → get_paging_attr (length (s.services x)) page per_page max_per_page ≡ ok w
      → (r : List Service × ℕ) × (s.list page per_page x ≡ ok r)
