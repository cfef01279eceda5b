-- ===== src/PathFilter/Ops.antt =====
-- The comparison operations of the filter, against what they mean for the texts.
use lslc_core.Common.{ℕ, ◌≡◌, ◌↔◌, true, String, List, ◌++◌, ok, eq_iff}
use lslc_core.Common.Texts.{codes, has_prefix_iff, has_suffix_iff, contains_iff, IsInside}
use lslc_core.PathFilter.{compare_value}

-- Each operation holds exactly of the texts that it names: the same text, one that begins with
-- the value, one that ends with it, and one that holds it.
pub compare_value_iff :
    (printed value : String)
    → ((compare_value "equals" printed value ≡ ok true) ↔ (printed ≡ value))
      × ((compare_value "prefix" printed value ≡ ok true)
          ↔ ((rest : List ℕ) × (codes printed ≡ codes value ++ rest)))
      × ((compare_value "suffix" printed value ≡ ok true)
          ↔ ((before : List ℕ) × (codes printed ≡ before ++ codes value)))
      × ((compare_value "contains" printed value ≡ ok true)
          ↔ IsInside (codes value) (codes printed))
unfolding compare_value
compare_value_iff printed value =
    let (eq, eq') = eq_iff printed value in
    let (p, p') = has_prefix_iff (codes printed) (codes value) in
    let (s, s') = has_suffix_iff (codes printed) (codes value) in
    let (c, c') = contains_iff (codes printed) (codes value) in
    (
      (λ h. eq (cc), λ h. cc (eq' h)),
      (λ h. p (cc), λ h. cc (p' h)),
      (λ h. s (cc), λ h. cc (s' h)),
      (λ h. c (cc), λ h. cc (c' h)),
    )
