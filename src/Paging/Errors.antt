-- ===== src/Paging/Errors.antt =====
-- Which requests are refused.
use lslc_core.Common.{ℕ, ◌≤◌, ◌<◌, ◌≡◌, ◌↔◌, String, ok, err, arith, eq_iff}
use lslc_core.Common.Int.{ℤ, pos, pos_part}
use lslc_core.Paging.{
  PagingError, page_not_positive, per_page_not_positive, per_page_too_large, validate_paging_params,
  get_paging_attr, invalid_page, invalid_per_page, parse_paging_params, parse_param,
}

-- A page that the API can serve.
abbrev pub IsValidPage : ℤ → ℤ → ℕ → Type 0
IsValidPage page per_page most =
    (0 < pos_part page) × (0 < pos_part per_page) × (pos_part per_page ≤ most)

-- The validation accepts exactly a positive page with a page size from 1 to the maximum.
pub validate_iff :
    (page per_page : ℤ) (most : ℕ)
    → (validate_paging_params page per_page most ≡ ok tt) ↔ IsValidPage page per_page most
unfolding validate_paging_params
validate_iff page per_page most = (λ h. ground arith, λ h. ground arith)

-- Each refusal names the first parameter that is wrong: the page, then the page size.
pub get_paging_attr_errors :
    (total : ℕ) (page per_page : ℤ) (most : ℕ)
    → ((get_paging_attr total page per_page most ≡ err page_not_positive) ↔ (pos_part page ≡ 0))
      × ((get_paging_attr total page per_page most ≡ err per_page_not_positive)
          ↔ ((0 < pos_part page) × (pos_part per_page ≡ 0)))
      × ((get_paging_attr total page per_page most ≡ err per_page_too_large)
          ↔ ((0 < pos_part page) × (most < pos_part per_page)))
unfolding get_paging_attr validate_paging_params
get_paging_attr_errors total page per_page most = (
  (λ h. ground arith, λ h. ground arith),
  (λ h. ground arith, λ h. ground arith),
  (λ h. ground arith, λ h. ground arith),
)

parse_param_empty :
    (text : String) (default n : ℤ) (e : PagingError)
    → parse_param text default e ≡ ok n
    → text ≡ ""
    → n ≡ default
unfolding parse_param
parse_param_empty text default n e h = ground (arith, eq_iff text "")

-- What ParsePagingParams returns is valid; an empty page is the first one and an empty page size
-- is the maximum.
pub parse_paging_params_valid :
    (page per_page : String) (most : ℕ) (p q : ℤ)
    → parse_paging_params page per_page most ≡ ok (p, q)
    → IsValidPage p q most × (page ≡ "" → p ≡ pos 1) × (per_page ≡ "" → q ≡ pos most)
unfolding parse_paging_params
parse_paging_params_valid page per_page most p q h = ground (
  arith,
  validate_iff p q most,
  parse_param_empty page (pos 1) p (invalid_page page),
  parse_param_empty per_page (pos most) q (invalid_per_page per_page),
)
