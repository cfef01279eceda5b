-- ===== src/Service/Reads.antt =====
-- The methods of the controller that only read, and its start:
-- src/linksmart.eu/lc/core/catalog/service/controller.go. The loops over pages take fuel, the number
-- of rounds left.
use lslc_core.Common.{
  ℕ, zero, suc, ◌*◌, String, Bool, true, false, List, [], ◌∷◌, ◌++◌, Option, none, some, Result, ok,
  err, ◌>>=◌, result_map, if◌then◌else◌, leb,
}
use lslc_core.Common.Int.{ℤ, pos}
use lslc_core.Common.Texts.{split}
use lslc_core.Json.{Json, text, array, object, number, Fields, end, field}
use lslc_core.PathFilter.{MatchError, match_object}
use lslc_core.Resource.{CatalogError, other}
use lslc_core.Resource.Encode.{unless_empty, unless_no_fields, protocols_json}
use lslc_core.Resource.Reads.{matching, paginate}
use lslc_core.Service.{Service, is_zero_ttl}
use lslc_core.Service.Store.{max_per_page}
use lslc_core.Service.Controller.{Env, Controller, add_indices}

-- How Go prints a time, a number of JSON, and a list or a map.
pub record Format : Type 0 where
  pub time_text : ℕ → String
  pub number_text : ℤ → String
  pub print_composite : Json → String

module _ (f : Format) where
  unless_never : Option ℕ → Fields → Fields
  unless_never none rest = rest
  unless_never (some t) rest = field "expires" (text (f.time_text t)) rest

  unless_zero : ℤ → Fields → Fields
  unless_zero ttl rest =
      if is_zero_ttl ttl then rest else field "ttl" (number (f.number_text ttl)) rest

  -- What encoding/json makes of a Service, by the tags of the struct.
  unfoldable pub service_json : Service → Json
  unfolding unless_empty unless_no_fields unless_never unless_zero protocols_json
  service_json s = object (
      field "id" (text s.id) (
        field "url" (text s.url) (
          field "type" (text s.type) (
            unless_empty "name" s.name (
              unless_empty "description" s.description (
                unless_no_fields "meta" s.meta (
                  field "protocols" (array (protocols_json s.protocols)) (
                    unless_no_fields "representation" s.representation (
                      unless_zero s.ttl (
                        field "created" (text (f.time_text s.created)) (
                          field "updated" (text (f.time_text s.updated))
                            (unless_never s.expires end))))))))))))

module _ (e : Env) where
  -- get
  unfoldable pub get : Controller e → String → Result CatalogError Service
  get c id = e.storage.get id c.storage

  -- list
  unfoldable pub list : Controller e → ℤ → ℤ → Result CatalogError (List Service × ℕ)
  list c page per_page = e.storage.list page per_page c.storage

  -- total
  unfoldable pub total : Controller e → Result CatalogError ℕ
  total c = e.storage.total c.storage

  -- The loop of filter over the pages of the storage, from a page on: the services that match.
  unfoldable pub scan :
      (Service → Result MatchError Bool) → ℕ → ℕ → Controller e → Result CatalogError (List Service)
  scan test zero page c = err (other "out of fuel")
  scan test (suc fuel) page c = elim (e.storage.list (pos page) (pos max_per_page) c.storage) [
    | err x ↦ err x
    | ok (services, total_) ↦ matching test services >>= λ here.
        elim (leb total_ (page * max_per_page)) [
          | true ↦ ok here
          | false ↦ result_map (λ later. here ++ later) (scan test fuel (suc page) c)
        ]
  ]

  -- filter, with the rounds of its loop that may be made
  unfoldable pub filter :
      Format
      → ℕ
      → Controller e
      → String
      → String
      → String
      → ℤ
      → ℤ
      → Result CatalogError (List Service × ℕ)
  unfolding scan
  filter f fuel c path op value page per_page =
      scan
        (λ s. match_object f.print_composite (some (service_json f s)) (split path b'.') op value)
        fuel 1 c
      >>= λ found. paginate found page per_page

  -- addIndices of the services of a page.
  unfoldable pub index_all :
      List Service → Controller e → Controller e × Result CatalogError (Unit {0})
  index_all [] c = (c, ok tt)
  index_all (s ∷ ss) c =
      let (c', r) = add_indices e c s in elim r [ err x ↦ (c', err x) | ok _ ↦ index_all ss c' ]

  -- The loop of initIndices, from a page on, with the rounds that are left.
  unfoldable pub init_from : ℕ → ℕ → Controller e → Controller e × Result CatalogError (Unit {0})
  init_from zero page c = (c, err (other "out of fuel"))
  init_from (suc fuel) page c = elim (e.storage.list (pos page) (pos max_per_page) c.storage) [
    | err x ↦ (c, err x)
    | ok (services, total_) ↦
        let (c', r) = index_all services c in
        elim r [
          | err x ↦ (c', err x)
          | ok _ ↦ elim (leb total_ (page * max_per_page)) [
            | true ↦ (c', ok tt)
            | false ↦ init_from fuel (suc page) c'
          ]
        ]
  ]

  -- NewController, but for the goroutine that it starts, with the number of its listeners.
  unfoldable pub new_controller :
      ℕ → e.storage.State → String → ℕ → ℕ → Controller e × Result CatalogError (Unit {0})
  unfolding init_from
  new_controller fuel s api_location listeners now = init_from fuel 1 (record {
    storage = s;
    api_location = api_location;
    listeners = listeners;
    start_time = now;
    counter = 0;
    exp_sid = e.exp_tree.empty;
    notices = [];
  })
