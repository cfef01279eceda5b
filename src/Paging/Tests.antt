-- ===== src/Paging/Tests.antt =====
-- Runs of the paging functions, and the theorems at concrete requests.
use lslc_core.Common.{◌+◌, ◌≤◌, ◌≡◌, refl, String, List, [], ◌∷◌, ok, err, result_map, arith}
use lslc_core.Common.Int.{pos, negsuc}
use lslc_core.Paging.{
  get_paging_attr, get_page_of_slice, parse_paging_params, parse_param, validate_paging_params,
  atoi, page_not_positive, invalid_page,
}
use lslc_core.Paging.Bounds.{get_paging_attr_bounds}
use lslc_core.Paging.Pages.{first_pages, window, pages_partition, get_page_of_slice-eq-window}
use lslc_core.Paging.Errors.{IsValidPage, get_paging_attr_errors, parse_paging_params_valid}

abbrev five : List String
five = "a" ∷ "b" ∷ "c" ∷ "d" ∷ "e" ∷ []

third_page : get_paging_attr 5 (pos 3) (pos 2) 100 ≡ ok (4, 1)
unfolding get_paging_attr
third_page = refl

beyond : get_page_of_slice five (pos 9) (pos 2) 100 ≡ ok []
unfolding get_page_of_slice
beyond = refl

defaults : parse_paging_params "" "25" 100 ≡ ok (pos 1, pos 25)
unfolding parse_paging_params parse_param validate_paging_params atoi
defaults = refl

not_a_number : parse_paging_params "1x" "" 100 ≡ err (invalid_page "1x")
unfolding parse_paging_params parse_param validate_paging_params atoi
not_a_number = refl

get_paging_attr_bounds_example : (4 + 1 ≤ 5) × (1 ≤ 2) × (2 ≤ 100)
unfolding get_paging_attr
get_paging_attr_bounds_example = get_paging_attr_bounds 5 (pos 3) (pos 2) 100 4 1 refl

pages_partition_example : first_pages five 2 3 ≡ five
pages_partition_example = pages_partition five 2 (omega arith)

get_page_of_slice-eq-window_example :
    get_page_of_slice five (pos 2) (pos 2) 100
    ≡ result_map (window five) (get_paging_attr 5 (pos 2) (pos 2) 100)
get_page_of_slice-eq-window_example = get_page_of_slice-eq-window five (pos 2) (pos 2) 100

get_paging_attr_errors_example : get_paging_attr 5 (negsuc 3) (pos 2) 100 ≡ err page_not_positive
get_paging_attr_errors_example = (get_paging_attr_errors 5 (negsuc 3) (pos 2) 100).0.1 refl

parse_paging_params_valid_example :
    IsValidPage (pos 1) (pos 25) 100
    × (◌≡◌ {A = String} "" "" → pos 1 ≡ pos 1)
    × (◌≡◌ {A = String} "25" "" → pos 25 ≡ pos 100)
parse_paging_params_valid_example = parse_paging_params_valid "" "25" 100 (pos 1) (pos 25) defaults
