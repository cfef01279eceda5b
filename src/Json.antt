-- ===== src/Json.antt =====
-- Values of Go's encoding/json, as `interface{}` holds them after json.Unmarshal. A number stands
-- as the text that Go's fmt prints of it.
use lslc_core.Common.{ℕ, suc, String, Bool, Option, none, some, ◌==◌, if◌then◌else◌}

mutual
  pub data Json : Type 0 where
    null : Json
    bool : Bool → Json
    number : String → Json
    text : String → Json
    array : Items → Json
    object : Fields → Json

  pub data Items : Type 0 where
    nil : Items
    item : Json → Items → Items

  pub data Fields : Type 0 where
    end : Fields
    field : String → Json → Fields → Fields

-- m[k] of a map[string]interface{}
unfoldable pub get_field : String → Fields → Option Json
get_field k end = none
get_field k (field j v rest) = if j == k then some v else get_field k rest

-- len(m)
unfoldable pub size : Fields → ℕ
size end = 0
size (field k v rest) = suc (size rest)
