-- ===== src/PathFilter/Tests.antt =====
-- Runs of the matching, and the theorems at concrete objects.
use lslc_core.Common.{ℕ, String, true, some, List, [], ◌∷◌, ◌++◌, ◌≡◌, ◌≢◌, ◌↔◌, refl, ok}
use lslc_core.Common.Texts.{codes, has_prefix, IsInside}
use lslc_core.Json.{Json, null, text, array, object, nil, item, end, field, get_field}
use lslc_core.PathFilter.{recursive_match, match_object, match_value, compare_value, sprint}
use lslc_core.PathFilter.Reach.{Leads, match_object-Leads}
use lslc_core.PathFilter.Ops.{compare_value_iff}

-- {"name": "lamp", "list": [{"x": "1"}, {"y": "22"}]}
abbrev sample : Json
sample = object (
    field "name" (text "lamp") (
      field "list"
        (array (
          item (object (field "x" (text "1") end)) (item (object (field "y" (text "22") end)) nil)))
        end))

abbrev printer : Json → String
printer j = "[]"

second_item : recursive_match sample ("list" ∷ "y" ∷ []) ≡ ok (text "22")
unfolding recursive_match get_field
second_item = refl

matched : match_object printer (some sample) ("list" ∷ "y" ∷ []) "prefix" "2" ≡ ok true
unfolding recursive_match get_field match_object match_value compare_value sprint has_prefix
matched = refl

match_object-Leads_example :
    (w : Json) × (w ≢ null)
    × Leads sample ("list" ∷ "y" ∷ []) w
    × (match_value printer w "prefix" "2" ≡ ok true)
match_object-Leads_example =
    match_object-Leads printer sample ("list" ∷ "y" ∷ []) "prefix" "2" matched

compare_value_iff_example :
    ((compare_value "equals" "lamp" "am" ≡ ok true) ↔ (◌≡◌ {A = String} "lamp" "am"))
    × ((compare_value "prefix" "lamp" "am" ≡ ok true)
        ↔ ((rest : List ℕ) × (codes "lamp" ≡ codes "am" ++ rest)))
    × ((compare_value "suffix" "lamp" "am" ≡ ok true)
        ↔ ((before : List ℕ) × (codes "lamp" ≡ before ++ codes "am")))
    × ((compare_value "contains" "lamp" "am" ≡ ok true) ↔ IsInside (codes "am") (codes "lamp"))
compare_value_iff_example = compare_value_iff "lamp" "am"
