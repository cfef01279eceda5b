-- ===== src/Resource/Reads/Panics.antt =====
-- A filter path through the resources of a device.
use lslc_core.Common.{String, ◌≡◌, List, ◌∷◌, some, err, arith}
use lslc_core.PathFilter.{recursive_match, match_object, panicked}
use lslc_core.Resource.{Device, Resource, simplify}
use lslc_core.Resource.Encode.{Format, simple_device_json}

-- Matching a device with at least one resource against a path that goes below `resources` panics:
-- the resources of a device are texts there, and each element of an array is taken for an object.
pub resources_path_panics :
    (f : Format) (op value : String) (d : Device) (r : Resource) (rs : List Resource) (key : String)
    (path : List String)
    → d.resources ≡ r ∷ rs
    → match_object f.print_composite
        (some (simple_device_json f (simplify d)))
        ("resources" ∷ key ∷ path)
        op
        value
      ≡ err panicked
unfolding match_object simple_device_json simplify recursive_match
resources_path_panics f op value d r rs key path h = ground (arith, h)
