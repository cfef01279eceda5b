-- ===== src/PathFilter.antt =====
-- Matching of a JSON object against a path, an operation and a value:
-- src/linksmart.eu/lc/core/catalog/pathfilter.go.
-- A type assertion that fails panics, which is the error `panicked`.
mod Reach
mod Ops
mod Tests
use lslc_core.Common.{
  ℕ, String, Bool, true, false, List, [], ◌∷◌, Option, none, some, Result, ok, err, ◌>>=◌, ◌==◌,
  if◌then◌else◌,
}
use lslc_core.Common.Texts.{codes, has_prefix, has_suffix, contains}
use lslc_core.Json.{
  Json, null, bool, number, text, array, object, Items, nil, item, Fields, end, field, get_field,
}

pub data MatchError : Type 0 where
  unable_to_parse unknown_operation panicked : MatchError

-- `_, ok := v[key]`
abbrev pub has_field : String → Fields → Bool
has_field key fields = elim (get_field key fields) [ none ↦ false | some v ↦ true ]

-- recursiveMatch: `match_fields` is its loop over a map, whose keys are distinct, and `match_items`
-- its loop over an array: an element with the key is followed, another object is passed over.
unfoldable mutual
  pub recursive_match : Json → List String → Result MatchError Json
  recursive_match v [] = ok v
  recursive_match (object fields) (key ∷ path) = match_fields fields key path
  recursive_match (array items) (key ∷ path) = match_items items key path
  recursive_match _ (key ∷ path) = ok null

  pub match_fields : Fields → String → List String → Result MatchError Json
  match_fields end key path = ok null
  match_fields (field k v rest) key path =
      let found = recursive_match v path in
      let later = match_fields rest key path in if k == key then found else later

  pub match_items : Items → String → List String → Result MatchError Json
  match_items nil key path = ok null
  match_items (item (object fields) rest) key path =
      let found = match_fields fields key path in
      let later = match_items rest key path in if has_field key fields then found else later
  match_items (item _ rest) key path = err panicked

-- The switch on the operation, at the printed value.
unfoldable pub compare_value : String → String → String → Result MatchError Bool
compare_value op printed value =
    if op == "equals"
    then ok (printed == value)
    else if op == "prefix"
    then ok (has_prefix (codes printed) (codes value))
    else if op == "suffix"
    then ok (has_suffix (codes printed) (codes value))
    else if op == "contains"
    then ok (contains (codes printed) (codes value))
    else err unknown_operation

-- Go prints a map's entries in no fixed order, so how fmt.Sprint prints a list or a map is a
-- parameter.
module _ (print_composite : Json → String) where
  -- fmt.Sprint
  unfoldable pub sprint : Json → String
  sprint null = "<nil>"
  sprint (bool true) = "true"
  sprint (bool false) = "false"
  sprint (number s) = s
  sprint (text s) = s
  sprint v = print_composite v

  -- What MatchObject does with the value that it finds.
  unfoldable pub match_value : Json → String → String → Result MatchError Bool
  unfolding sprint compare_value
  match_value null op value = ok false
  match_value v op value = compare_value op (sprint v) value

  -- MatchObject, at what json.Marshal makes of the object, or nothing if that fails
  unfoldable pub match_object : Option Json → List String → String → String → Result MatchError Bool
  match_object none path op value = err unable_to_parse
  match_object (some m) path op value = recursive_match m path >>= λ v. match_value v op value
