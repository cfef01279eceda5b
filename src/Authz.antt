-- ===== src/Authz.antt =====
-- Authorization rules: src/linksmart.eu/lc/sec/authz/authz.go and config.go, from the root of the
-- repository.
mod Decision
mod Tests
use lslc_core.Common.{
  ℕ, zero, suc, String, Bool, true, false, ◌&&◌, ◌||◌, List, [], ◌∷◌, Result, ok, err,
  if◌then◌else◌, ◌==◌, length, take, drop, eqb,
}
use lslc_core.Common.Words.{concat}
use lslc_core.Common.Texts.{split}

pub record Rule : Type 0 where
  pub resources : List String
  pub methods : List String
  pub users : List String
  pub groups : List String

pub record Conf : Type 0 where
  pub rules : List Rule

-- strings.Join(l, "/")
unfoldable pub join : List String → String
join [] = ""
join (s ∷ []) = s
join (s ∷ t ∷ l) = concat (s ∷ "/" ∷ join (t ∷ l) ∷ [])

-- The segments of a path: `strings.Split(resource, "/")` without the first piece.
unfoldable pub segments : String → List String
segments resource = drop 1 (split resource b'/')

-- The path of some of the segments.
unfoldable pub path_of : List String → String
unfolding join
path_of l = concat ("/" ∷ join l ∷ [])

-- The loop that builds resource_tree, from the path of `i` segments down to the path of one.
unfoldable pub tree_from : ℕ → List String → List String
unfolding path_of
tree_from zero l = []
tree_from (suc i) l = path_of (take (suc i) l) ∷ tree_from i l

unfoldable pub resource_tree : String → List String
unfolding segments tree_from
resource_tree resource = let l = segments resource in tree_from (length l) l

-- inSlice
unfoldable pub in_slice : String → List String → Bool
in_slice a [] = false
in_slice a (b ∷ l) = b == a || in_slice a l

-- inSliceM
unfoldable pub share : List String → List String → Bool
unfolding in_slice
share [] l = false
share (a ∷ k) l = in_slice a l || share k l

-- The test of a rule for one path of the tree.
unfoldable pub matches : Rule → String → String → List String → String → Bool
unfolding in_slice share
matches rule method user groups path =
    in_slice path rule.resources
    && (in_slice method rule.methods && (in_slice user rule.users || share groups rule.groups))

-- The loop over the tree, for one rule.
unfoldable pub matches_any : Rule → String → String → List String → List String → Bool
unfolding matches
matches_any rule method user groups [] = false
matches_any rule method user groups (path ∷ tree) =
    matches rule method user groups path || matches_any rule method user groups tree

-- The loop over the rules.
unfoldable pub any_rule : List Rule → List String → String → String → List String → Bool
unfolding matches_any
any_rule [] tree method user groups = false
any_rule (rule ∷ rules) tree method user groups =
    matches_any rule method user groups tree || any_rule rules tree method user groups

-- Authorized
unfoldable pub authorized : Conf → String → String → String → List String → Bool
unfolding resource_tree any_rule
authorized conf resource method user groups =
    any_rule conf.rules (resource_tree resource) method user groups

-- The loop of Validate.
unfoldable pub validate_rules : List Rule → Result String (Unit {0})
validate_rules [] = ok tt
validate_rules (rule ∷ rules) =
    let rest = validate_rules rules in
    if eqb (length rule.resources) 0
    then err "Authz: No resources in an authorization rule."
    else if eqb (length rule.methods) 0
    then err "Authz: No methods in an authorization rule."
    else if eqb (length rule.users) 0 && eqb (length rule.groups) 0
    then err "Authz: At least one user or group must be assigned to each authorization rule."
    else rest

-- Conf.Validate
unfoldable pub validate : Conf → Result String (Unit {0})
unfolding validate_rules
validate conf = validate_rules conf.rules
