-- ===== src/Resource/Api.antt =====
-- The HTTP API of the resource catalog: src/linksmart.eu/lc/core/catalog/resource/catalogapi.go,
-- with ErrorResponse of errors.go. A handler is a function from the request to the response. What
-- the router, the form parser and the JSON codec give the handler are its arguments; a panic makes
-- the server drop the connection.
pub mod Outcomes
use lslc_core.Common.{
  ℕ, String, Bool, true, false, List, [], ◌∷◌, Option, none, some, Result, ok, err, if◌then◌else◌,
  ◌==◌,
}
use lslc_core.Common.Int.{ℤ}
use lslc_core.Common.Words.{concat, join_words}
use lslc_core.Paging.{parse_paging_params, error_text}
use lslc_core.Resource.{
  Device, SimpleDevice, Resource, CatalogError, not_found, conflict, bad_request, other, panicked,
}
use lslc_core.Resource.Store.{max_per_page}
use lslc_core.Resource.State.{Env, Controller}
use lslc_core.Resource.Controller.{add, update, delete}
use lslc_core.Resource.Reads.{
  get, list, total, total_resources, get_resource, filter, list_resources, filter_resources,
}

-- DeviceCollection and ResourceCollection, less the constant fields.
pub record Collection (A : Type 0) : Type 0 where
  pub entries : List A
  pub page : ℤ
  pub per_page : ℤ
  pub total : ℕ

pub data Response : Type 0 where
  failure : ℕ → String → Response
  created : String → Response
  done : Response
  index_of : ℕ → ℕ → Response
  one_device : SimpleDevice → Response
  devices : Collection SimpleDevice → Response
  one_resource : Resource → Response
  resources : Collection Resource → Response
  dropped : Response

-- The body of a request: it cannot be read, is not a device, or is one.
pub data Body : Type 0 where
  unreadable malformed : String → Body
  parsed : Device → Body

-- The query of a request: the form cannot be parsed, or has these values of page and per_page.
pub data Query : Type 0 where
  no_form : String → Query
  form : String → String → Query

-- err.Error()
abbrev pub message : CatalogError → String
message (not_found m) = m
message (conflict m) = m
message (bad_request m) = m
message (other m) = m
message (panicked m) = m

-- ErrorResponse
unfoldable pub error_response : ℕ → List String → Response
error_response code ms = failure code (join_words ms)

-- A failure of a controller call that the handler does not tell apart.
abbrev pub internal : List String → CatalogError → Response
internal before (panicked m) = dropped
internal [] x = error_response 500 (message x ∷ [])
internal (p ∷ ps) x = error_response 500 (p ∷ message x ∷ [])

-- The switch of Get, GetResource and Delete.
unfoldable pub found_or : String → CatalogError → Response
unfolding error_response
found_or prefix (not_found m) = error_response 404 (m ∷ [])
found_or prefix x = internal (prefix ∷ []) x

-- The switch of Post.
unfoldable pub post_error : CatalogError → Response
unfolding error_response
post_error (conflict m) = error_response 409 ("Error creating the registration:" ∷ m ∷ [])
post_error (bad_request m) = error_response 400 ("Invalid device registration:" ∷ m ∷ [])
post_error x = internal ("Error creating the registration:" ∷ []) x

-- The switch of Put, but for a device that is not there.
unfoldable pub put_error : CatalogError → Response
unfolding error_response
put_error (conflict m) = error_response 409 ("Error updating the device:" ∷ m ∷ [])
put_error (bad_request m) = error_response 400 ("Invalid device registration:" ∷ m ∷ [])
put_error x = internal ("Error updating the device:" ∷ []) x

bad : String → String → Response
unfolding error_response
bad prefix m = error_response 400 (prefix ∷ m ∷ [])

module _ (e : Env) where
  -- The Location of a new device, by the field apiLocation of the API.
  abbrev pub location : String → String → String
  location api_location id = concat (api_location ∷ "/devices/" ∷ id ∷ [])

  -- ReadableCatalogAPI.Index
  unfoldable pub index : Controller e → Response
  index c = elim (total e c) [
    | err x ↦ internal ("Error counting devices:" ∷ []) x
    | ok n ↦ elim (total_resources e c) [
      | err x ↦ internal ("Error counting resources:" ∷ []) x
      | ok m ↦ index_of n m
    ]
  ]

  -- The end of Post and of the branch of Put that creates a device.
  unfoldable pub created_or :
      String
      → (CatalogError → Response)
      → Controller e × Result CatalogError String
      → Controller e × Response
  created_or api_location handle (c, err x) = (c, handle x)
  created_or api_location handle (c, ok id) = (c, created (location api_location id))

  -- WritableCatalogAPI.Post
  unfoldable pub post : String → Controller e → ℕ → Body → Controller e × Response
  unfolding error_response bad post_error created_or
  post api_location c now (unreadable m) = (c, error_response 400 (m ∷ []))
  post api_location c now (malformed m) = (c, bad "Error processing the request:" m)
  post api_location c now (parsed d) =
      if d.id == "" then created_or api_location post_error (add e c now d) else (
        c,
        error_response 400
            ("Creating a device with defined ID is not possible using a POST request." ∷ []),
      )

  -- ReadableCatalogAPI.Get
  unfoldable pub get_device : Controller e → String → Response
  unfolding found_or
  get_device c id = elim (get e c id) [
    | err x ↦ found_or "Error retrieving the device:" x
    | ok d ↦ one_device d
  ]

  -- The rest of Put, at the result of the update: a device that is not there is created with the
  -- id of the path, in a second call of the controller.
  unfoldable pub after_update :
      String
      → ℕ
      → String
      → Device
      → Controller e × Result CatalogError (Unit {0})
      → Controller e × Response
  unfolding put_error created_or
  after_update api_location now id d (c, ok _) = (c, done)
  after_update api_location now id d (c, err (not_found m)) =
      created_or api_location (internal ("Error creating the registration:" ∷ []))
        (add e c now (record d { id = id }))
  after_update api_location now id d (c, err x) = (c, put_error x)

  -- WritableCatalogAPI.Put
  unfoldable pub put : String → Controller e → ℕ → String → Body → Controller e × Response
  unfolding error_response bad after_update
  put api_location c now id (unreadable m) = (c, error_response 400 (m ∷ []))
  put api_location c now id (malformed m) = (c, bad "Error processing the request:" m)
  put api_location c now id (parsed d) = after_update api_location now id d (update e c now id d)

  -- WritableCatalogAPI.Delete
  unfoldable pub delete_device : Controller e → String → Controller e × Response
  unfolding found_or
  delete_device c id =
      let (c', r) = delete e c id in
      elim r [ err x ↦ (c', found_or "Error deleting the device:" x) | ok _ ↦ (c', done) ]

  -- The common part of List, Filter, ListResources and FilterResources.
  unfoldable pub page_response {ℓ} :
      {A : Type ℓ}
      → (ℤ → ℤ → Result CatalogError A)
      → (ℤ → ℤ → A → Response)
      → List String
      → Query
      → Response
  unfolding bad
  page_response call respond before (no_form m) = bad "Error parsing the query:" m
  page_response call respond before (form page per_page) =
      elim (parse_paging_params page per_page max_per_page) [
        | err x ↦ bad "Error parsing query parameters:" (error_text max_per_page x)
        | ok (p, q) ↦ elim (call p q) [ err x ↦ internal before x | ok r ↦ respond p q r ]
      ]

  abbrev pub device_page : ℤ → ℤ → List SimpleDevice × ℕ → Response
  device_page p q r = devices (record { entries = r.0; page = p; per_page = q; total = r.1 })

  abbrev pub resource_page : ℤ → ℤ → List Resource × ℕ → Response
  resource_page p q r = resources (record { entries = r.0; page = p; per_page = q; total = r.1 })

  -- ReadableCatalogAPI.List
  unfoldable pub list_devices : Controller e → Query → Response
  unfolding page_response
  list_devices c = page_response (list e c) device_page []

  -- ReadableCatalogAPI.Filter, with the rounds of its loop that may be made
  unfoldable pub filter_devices : ℕ → Controller e → String → String → String → Query → Response
  unfolding page_response
  filter_devices fuel c path op value = page_response (filter e fuel c path op value) device_page []

  -- ReadableCatalogAPI.GetResource
  unfoldable pub get_one_resource : Controller e → String → Response
  unfolding found_or
  get_one_resource c id = elim (get_resource e c id) [
    | err x ↦ found_or "Error retrieving the device:" x
    | ok r ↦ one_resource r
  ]

  -- ReadableCatalogAPI.ListResources
  unfoldable pub list_all_resources : Controller e → Query → Response
  unfolding page_response
  list_all_resources c = page_response (list_resources e c) resource_page []

  -- ReadableCatalogAPI.FilterResources
  unfoldable pub filter_all_resources : Controller e → String → String → String → Query → Response
  unfolding page_response
  filter_all_resources c path op value =
      page_response (filter_resources e c path op value) resource_page
        ("Error processing the request:" ∷ [])
