-- ===== src/Gateway/Rest/Mounted.antt =====
-- The routes that are mounted are served.
use lslc_core.Common.{String, false, ◌≡◌, List, In, eqb}
use lslc_core.Gateway.{Device, Resource, resource_id}
use lslc_core.Gateway.Rest.{Response, data_of, accepted, failed, hanging}

-- The resource of a route.
abbrev Origin : List Device → String → Type 0
Origin ds id =
    (d : Device) × (r : Resource) × In d ds × In r d.resources × (id ≡ resource_id d r.name)

-- A handler that does not say that the resource does not exist, and does not wait for ever.
abbrev pub IsServed : Response → Type 0
IsServed (data_of type payload) = Unit
IsServed accepted = Unit
IsServed (failed status message) = eqb status 404 ≡ false
IsServed hanging = ⊥
