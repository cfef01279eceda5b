-- ===== src/Authz/Tests.antt =====
-- A configuration, and the theorem at a request.
use lslc_core.Common.{String, true, [], ◌∷◌, ◌≡◌, refl, ◌↔◌, In}
use lslc_core.Common.Texts.{split}
use lslc_core.Authz.{Rule, Conf, resource_tree, any_rule, authorized}
use lslc_core.Authz.Decision.{IsAncestor, Grants, authorized_iff}

abbrev readers : Conf
readers = record {
  rules =
      record {
        resources = "/rc" ∷ "/sc" ∷ [];
        methods = "GET" ∷ [];
        users = [];
        groups = "staff" ∷ [];
      }
      ∷ [];
}

allowed : authorized readers "/rc/devices/a" "GET" "bob" ("staff" ∷ []) ≡ true
unfolding authorized resource_tree any_rule split
allowed = refl

authorized_iff_example : (authorized readers "/rc/devices/a" "GET" "bob" ("staff" ∷ []) ≡ true) ↔ (
    (rule : Rule) × In rule readers.rules
    × (path : String) × IsAncestor path "/rc/devices/a"
    × Grants rule path "GET" "bob" ("staff" ∷ []))
authorized_iff_example = authorized_iff readers "/rc/devices/a" "GET" "bob" ("staff" ∷ [])
