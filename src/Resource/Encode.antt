-- ===== src/Resource/Encode.antt =====
-- What encoding/json makes of a SimpleDevice and of a Resource, by the tags of the structs in
-- src/linksmart.eu/lc/core/catalog/resource/catalog.go. A field tagged `omitempty` is left out where
-- it is empty. The outer `resources` of a SimpleDevice hides the one of the embedded Device.
use lslc_core.Common.{ℕ, String, List, [], ◌∷◌, Option, none, some, eqb, if◌then◌else◌, ◌==◌}
use lslc_core.Json.{Json, text, array, object, number, Items, nil, item, Fields, end, field, size}
use lslc_core.Resource.{SimpleDevice, Resource, Protocol}

-- How Go prints a time, a number of JSON, and a list or a map.
pub record Format : Type 0 where
  pub time_text : ℕ → String
  pub number_text : ℕ → String
  pub print_composite : Json → String

texts : List String → Items
texts [] = nil
texts (s ∷ l) = item (text s) (texts l)

unfoldable pub unless_empty : String → String → Fields → Fields
unless_empty key s rest = if s == "" then rest else field key (text s) rest

unfoldable pub unless_no_fields : String → Fields → Fields → Fields
unless_no_fields key m rest = if eqb (size m) 0 then rest else field key (object m) rest

unless_no_texts : String → List String → Fields → Fields
unfolding texts
unless_no_texts key [] rest = rest
unless_no_texts key (s ∷ l) rest = field key (array (texts (s ∷ l))) rest

protocol_json : Protocol → Json
unfolding unless_no_texts
protocol_json p = object (
    field "type" (text p.type) (
      field "endpoint" (object p.endpoint) (
        unless_no_texts "methods" p.methods (unless_no_texts "content-types" p.content_types end))))

unfoldable pub protocols_json : List Protocol → Items
unfolding protocol_json
protocols_json [] = nil
protocols_json (p ∷ ps) = item (protocol_json p) (protocols_json ps)

module _ (f : Format) where
  unless_never : Option ℕ → Fields → Fields
  unless_never none rest = rest
  unless_never (some t) rest = field "expires" (text (f.time_text t)) rest

  unless_zero : ℕ → Fields → Fields
  unless_zero ttl rest = if eqb ttl 0 then rest else field "ttl" (number (f.number_text ttl)) rest

  unfoldable pub simple_device_json : SimpleDevice → Json
  unfolding unless_empty unless_no_fields unless_never unless_zero texts
  simple_device_json s =
      let d = s.device in
      object (
        field "id" (text d.id) (
          field "url" (text d.url) (
            field "type" (text d.type) (
              unless_empty "name" d.name (
                unless_no_fields "meta" d.meta (
                  unless_empty "description" d.description (
                    unless_zero d.ttl (
                      field "created" (text (f.time_text d.created)) (
                        field "updated" (text (f.time_text d.updated)) (
                          unless_never d.expires
                            (field "resources" (array (texts s.resources)) end)))))))))))

  unfoldable pub resource_json : Resource → Json
  unfolding unless_empty unless_no_fields protocols_json
  resource_json r = object (
      field "id" (text r.id) (
        field "url" (text r.url) (
          field "type" (text r.type) (
            unless_empty "name" r.name (
              unless_no_fields "meta" r.meta (
                field "protocols" (array (protocols_json r.protocols)) (
                  unless_no_fields "representation" r.representation
                    (field "device" (text r.device) end))))))))
