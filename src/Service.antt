-- ===== src/Service.antt =====
-- The data model of the service catalog and the validation of a registration:
-- src/linksmart.eu/lc/core/catalog/service/catalog.go. Its error types are those of the resource
-- catalog, which errors.go repeats.
pub mod Store
pub mod Memory
pub mod Controller
pub mod Expiry
pub mod Reads
pub mod Api
pub mod Registry
mod Tests
use lslc_core.Common.{
  ℕ, String, Bool, true, false, List, [], ◌∷◌, Option, none, some, Result, ok, err, if◌then◌else◌,
  ◌==◌, eqb,
}
use lslc_core.Common.Int.{ℤ, pos}
use lslc_core.Json.{Json, bool, Fields, get_field, size}
use lslc_core.Resource.{Protocol}

-- The struct Service; its TTL is a signed number of seconds.
pub record Service : Type 0 where
  pub id : String
  pub url : String
  pub type : String
  pub name : String
  pub description : String
  pub meta : Fields
  pub protocols : List Protocol
  pub representation : Fields
  pub ttl : ℤ
  pub created : ℕ
  pub updated : ℕ
  pub expires : Option ℕ

-- The loop over the protocols in Service.validate.
unfoldable pub validate_protocols : List Protocol → Result String (Unit {0})
validate_protocols [] = ok tt
validate_protocols (p ∷ ps) =
    let rest = validate_protocols ps in
    if p.type == ""
    then err "Each protocol must have a type"
    else if eqb (size p.endpoint) 0
    then err "Each protocol must have at least one endpoint"
    else rest

-- Service.validate
unfoldable pub validate : Service → Result String (Unit {0})
unfolding validate_protocols
validate s = elim s.protocols [
  | [] ↦ err "At least one protocol must be defined"
  | ◌∷◌ p ps ↦ validate_protocols (p ∷ ps)
]

abbrev pub is_zero_ttl : ℤ → Bool
is_zero_ttl (pos n) = eqb n 0
is_zero_ttl _ = false
