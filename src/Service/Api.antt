-- ===== src/Service/Api.antt =====
-- The HTTP API of the service catalog: src/linksmart.eu/lc/core/catalog/service/catalogapi.go,
-- with ErrorResponse of errors.go. A handler is a function from the request to the response. What
-- the router, the form parser and the JSON codec give the handler are its arguments; a panic makes
-- the server drop the connection.
pub mod Outcomes
use lslc_core.Common.{
  ℕ, String, Bool, true, false, List, [], ◌∷◌, Option, none, some, Result, ok, err, if◌then◌else◌,
  ◌==◌,
}
use lslc_core.Common.Int.{ℤ}
use lslc_core.Common.Words.{concat, join_words}
use lslc_core.Paging.{parse_paging_params, error_text}
use lslc_core.Resource.{CatalogError, not_found, conflict, bad_request, other, panicked}
use lslc_core.Resource.Api.{Query, no_form, form, message}
use lslc_core.Service.{Service}
use lslc_core.Service.Store.{max_per_page}
use lslc_core.Service.Controller.{Env, Controller, add, update, delete}
use lslc_core.Service.Reads.{Format, get, list, filter}

-- Collection, less the constant fields.
pub record Collection : Type 0 where
  pub services : List Service
  pub page : ℤ
  pub per_page : ℤ
  pub total : ℕ

pub data Response : Type 0 where
  failure : ℕ → String → Response
  created : String → Response
  done : Response
  one_service : Service → Response
  services : Collection → Response
  dropped : Response

-- The body of a request: it cannot be read, is not a service, or is one.
pub data Body : Type 0 where
  unreadable malformed : String → Body
  parsed : Service → Body

-- ErrorResponse
unfoldable pub error_response : ℕ → List String → Response
error_response code ms = failure code (join_words ms)

-- A failure of a controller call that the handler does not tell apart.
abbrev pub internal : List String → CatalogError → Response
internal before (panicked m) = dropped
internal [] x = error_response 500 (message x ∷ [])
internal (p ∷ ps) x = error_response 500 (p ∷ message x ∷ [])

-- The switch of Get and Delete.
unfoldable pub found_or : String → CatalogError → Response
unfolding error_response
found_or prefix (not_found m) = error_response 404 (m ∷ [])
found_or prefix x = internal (prefix ∷ []) x

-- The switch of Post.
unfoldable pub post_error : CatalogError → Response
unfolding error_response
post_error (conflict m) = error_response 409 ("Error creating the registration:" ∷ m ∷ [])
post_error (bad_request m) = error_response 400 ("Invalid service registration:" ∷ m ∷ [])
post_error x = internal ("Error creating the registration:" ∷ []) x

-- The switch of Put, but for a service that is not there.
unfoldable pub put_error : CatalogError → Response
unfolding error_response
put_error (conflict m) = error_response 409 ("Error updating the service:" ∷ m ∷ [])
put_error (bad_request m) = error_response 400 ("Invalid service registration:" ∷ m ∷ [])
put_error x = internal ("Error updating the service:" ∷ []) x

bad : String → String → Response
unfolding error_response
bad prefix m = error_response 400 (prefix ∷ m ∷ [])

module _ (e : Env) where
  -- The Location of a new service.
  abbrev pub location : Controller e → String → String
  location c id = concat (c.api_location ∷ "/" ∷ id ∷ [])

  -- The end of Post and of the branch of Put that creates a service.
  unfoldable pub created_or :
      (CatalogError → Response)
      → Controller e × Result CatalogError String
      → Controller e × Response
  created_or handle (c, err x) = (c, handle x)
  created_or handle (c, ok id) = (c, created (location c id))

  -- CatalogAPI.Post
  unfoldable pub post : Controller e → ℕ → Body → Controller e × Response
  unfolding error_response bad post_error created_or
  post c now (unreadable m) = (c, error_response 400 (m ∷ []))
  post c now (malformed m) = (c, bad "Error processing the request:" m)
  post c now (parsed s) = if s.id == "" then created_or post_error (add e c now s) else (
    c,
    error_response 400
        ("Creating a service with defined ID is not possible using a POST request." ∷ []),
  )

  -- CatalogAPI.Get
  unfoldable pub get_service : Controller e → String → Response
  unfolding found_or
  get_service c id = elim (get e c id) [
    | err x ↦ found_or "Error retrieving the service:" x
    | ok s ↦ one_service s
  ]

  -- The rest of Put, at the result of the update: a service that is not there is created with the
  -- id of the path, in a second call of the controller.
  unfoldable pub after_update :
      ℕ → String → Service → Controller e × Result CatalogError (Unit {0}) → Controller e × Response
  unfolding put_error created_or
  after_update now id s (c, ok _) = (c, done)
  after_update now id s (c, err (not_found m)) =
      created_or (internal ("Error creating the registration:" ∷ []))
        (add e c now (record s { id = id }))
  after_update now id s (c, err x) = (c, put_error x)

  -- CatalogAPI.Put
  unfoldable pub put : Controller e → ℕ → String → Body → Controller e × Response
  unfolding error_response bad after_update
  put c now id (unreadable m) = (c, error_response 400 (m ∷ []))
  put c now id (malformed m) = (c, bad "Error processing the request:" m)
  put c now id (parsed s) = after_update now id s (update e c now id s)

  -- CatalogAPI.Delete
  unfoldable pub delete_service : Controller e → String → Controller e × Response
  unfolding found_or
  delete_service c id =
      let (c', r) = delete e c id in
      elim r [ err x ↦ (c', found_or "Error deleting the service:" x) | ok _ ↦ (c', done) ]

  -- The common part of List and Filter.
  unfoldable pub page_response : (ℤ → ℤ → Result CatalogError (List Service × ℕ)) → Query → Response
  unfolding bad
  page_response call (no_form m) = bad "Error parsing the query:" m
  page_response call (form page per_page) = elim (parse_paging_params page per_page max_per_page) [
    | err x ↦ bad "Error parsing query parameters:" (error_text max_per_page x)
    | ok (p, q) ↦ elim (call p q) [
      | err x ↦ internal [] x
      | ok r ↦ services (record { services = r.0; page = p; per_page = q; total = r.1 })
    ]
  ]

  -- CatalogAPI.List
  unfoldable pub list_services : Controller e → Query → Response
  unfolding page_response
  list_services c = page_response (list e c)

  -- CatalogAPI.Filter, with the rounds of its loop that may be made
  unfoldable pub filter_services :
      Format → ℕ → Controller e → String → String → String → Query → Response
  unfolding page_response
  filter_services f fuel c path op value = page_response (filter e f fuel c path op value)
