-- ===== src/Resource.antt =====
-- The data model of the resource catalog and the validation of a registration:
-- src/linksmart.eu/lc/core/catalog/resource/catalog.go, and the error types of errors.go.
-- A map[string]interface{} is a `Json.Fields`; a nil *time.Time is `none`.
pub mod Store
pub mod Encode
pub mod State
pub mod Sorting
pub mod Controller
pub mod Indices
pub mod Memory
pub mod Level
pub mod Reads
pub mod Api
pub mod Registry
mod Tests
use lslc_core.Common.{
  ℕ, String, Bool, true, false, List, [], ◌∷◌, map, Option, none, some, Result, ok, err, ◌>>=◌, ltb,
  eqb, if◌then◌else◌, ◌==◌, ◌&&◌, ◌||◌, not,
}
use lslc_core.Common.Texts.{codes, contains, count_of, has_prefix, has_suffix}
use lslc_core.Common.Words.{concat}
use lslc_core.Json.{Fields, size}

-- NotFoundError, ConflictError and BadRequestError, any other error, and a panic.
pub data CatalogError : Type 0 where
  not_found conflict bad_request other panicked : String → CatalogError

pub record Protocol : Type 0 where
  pub type : String
  pub endpoint : Fields
  pub methods : List String
  pub content_types : List String

-- The struct Resource.
pub record Resource : Type 0 where
  pub id : String
  pub url : String
  pub type : String
  pub name : String
  pub meta : Fields
  pub protocols : List Protocol
  pub representation : Fields
  pub device : String

pub record Device : Type 0 where
  pub id : String
  pub url : String
  pub type : String
  pub name : String
  pub meta : Fields
  pub description : String
  pub ttl : ℕ
  pub created : ℕ
  pub updated : ℕ
  pub expires : Option ℕ
  pub resources : List Resource

-- A Device with the URLs of its resources in place of the resources.
pub record SimpleDevice : Type 0 where
  pub device : Device
  pub resources : List String

abbrev slash : ℕ
slash = b'/'

-- `_, found := set[id]`
abbrev pub is_member : String → List String → Bool
is_member s [] = false
is_member s (t ∷ ts) = t == s || is_member s ts

-- The loop over the protocols in Resource.validate.
validate_protocols : List Protocol → Result String (Unit {0})
validate_protocols [] = ok tt
validate_protocols (p ∷ ps) =
    let rest = validate_protocols ps in
    if p.type == ""
    then err "Each resource protocol must have a type"
    else if eqb (size p.endpoint) 0
    then err "Each resource protocol must have at least one endpoint"
    else rest

abbrev is_empty {ℓ} : {A : Type ℓ} → List A → Bool
is_empty [] = true
is_empty (x ∷ xs) = false

-- The error of net/url's Parse for a text, if there is one, depends on the release of Go, and is a
-- parameter.
module _ (url_error : String → Option String) where
  -- Resource.validate
  unfoldable pub validate_resource : Resource → Result String (Unit {0})
  unfolding validate_protocols
  validate_resource r = elim (url_error r.id) [
    | some m ↦ err (concat ("Resource id " ∷ r.id ∷ " cannot be used in a URL: " ∷ m ∷ []))
    | none ↦
        if ltb 1 (count_of (codes r.id) slash)
        then err
            (concat ("Resource id should not contain more than one slash. Given: " ∷ r.id ∷ []))
        else if has_prefix (codes r.id) (codes "/") || has_suffix (codes r.id) (codes "/")
        then err (concat ("Resource id should not start or end with an slash. Given: " ∷ r.id ∷ []))
        else if is_empty r.protocols
        then err "At least one protocol must be defined for every resource"
        else validate_protocols r.protocols
  ]

  -- The loop over the resources in Device.validate, with the set `rIDs` of the ids seen so far.
  validate_resources : List String → List Resource → Result String (Unit {0})
  validate_resources seen [] = ok tt
  validate_resources seen (r ∷ rs) =
      let rest = validate_resources (if r.id == "" then seen else r.id ∷ seen) rs in
      validate_resource r >>= λ _.
      if not (r.id == "") && is_member r.id seen
      then err "Two or more resources have the same IDs"
      else rest

  -- Device.validate
  unfoldable pub validate : Device → Result String (Unit {0})
  unfolding validate_resources
  validate d = elim (url_error d.id) [
    | some m ↦ err (concat ("Device id " ∷ d.id ∷ " cannot be used in a URL: " ∷ m ∷ []))
    | none ↦
        if contains (codes d.id) (codes "/")
        then err (concat ("Device id should not contain any slashes. Given: " ∷ d.id ∷ []))
        else validate_resources [] d.resources
  ]

-- Device.simplify
unfoldable pub simplify : Device → SimpleDevice
simplify d = record {
  device = record d { resources = [] };
  resources = map (λ r. r.url) d.resources;
}

-- Devices.simplify
unfoldable pub simplify_all : List Device → List SimpleDevice
unfolding simplify
simplify_all devices = map simplify devices
