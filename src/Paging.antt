-- ===== src/Paging.antt =====
-- Paging parameters and pages: src/linksmart.eu/lc/core/catalog/utils.go.
-- `int` parameters are ℤ, since a query can hold a negative number; past the validation both are
-- positive and `pos_part` is the number itself. No product exceeds the total where it is computed.
mod Atoi
mod Bounds
mod Pages
mod Errors
mod Tests
unfoldable pub use Atoi.{atoi}
use lslc_core.Common.{
  ℕ, suc, ◌+◌, ◌-◌, ◌*◌, ◌/◌, String, Bool, ◌&&◌, List, [], Option, none, some, Result, ok, err,
  ◌>>=◌, ltb, leb, eqb, if◌then◌else◌, length, take, drop, ◌==◌,
}
use lslc_core.Common.{◌∷◌}
use lslc_core.Common.Words.{concat, format_decimal}
use lslc_core.Common.Int.{ℤ, pos, pos_part, ltb_ℤ}

pub data PagingError : Type 0 where
  page_not_positive per_page_not_positive per_page_too_large : PagingError
  invalid_page invalid_per_page : String → PagingError

-- The text of an error, for a maximum number of items per page.
unfoldable pub error_text : ℕ → PagingError → String
error_text most page_not_positive = "page parameter must be positive"
error_text most per_page_not_positive = "per_page parameter must be positive"
error_text most per_page_too_large =
    concat ("per_page must less than or equal to " ∷ format_decimal most ∷ [])
error_text most (invalid_page text) = concat ("Invalid value for parameter page: " ∷ text ∷ [])
error_text most (invalid_per_page text) =
    concat ("Invalid value for parameter per_page: " ∷ text ∷ [])

-- ValidatePagingParams
unfoldable pub validate_paging_params : ℤ → ℤ → ℕ → Result PagingError (Unit {0})
validate_paging_params page per_page max_per_page =
    if ltb_ℤ page (pos 1)
    then err page_not_positive
    else if ltb_ℤ per_page (pos 1)
    then err per_page_not_positive
    else if ltb_ℤ (pos max_per_page) per_page
    then err per_page_too_large
    else ok tt

-- The branches of GetPagingAttr, once the parameters are valid.
unfoldable pub paging_attr : ℕ → ℕ → ℕ → ℕ × ℕ
paging_attr total page per_page =
    if eqb page 1
    then (if ltb total per_page then (0, total) else (0, per_page))
    else if eqb page (total / per_page + 1)
    then (per_page * (page - 1), total - per_page * (page - 1))
    else if leb page (total / per_page) && leb (page * per_page) total
    then (let r = page * per_page in let l = r - per_page in (l, r - l))
    else (0, 0)

-- GetPagingAttr: the offset and the limit of a page
unfoldable pub get_paging_attr : ℕ → ℤ → ℤ → ℕ → Result PagingError (ℕ × ℕ)
unfolding validate_paging_params paging_attr
get_paging_attr total page per_page max_per_page =
    validate_paging_params page per_page max_per_page >>= λ _.
    ok (paging_attr total (pos_part page) (pos_part per_page))

-- The branches of GetPageOfSlice, once the parameters are valid.
unfoldable pub page_of_slice : List String → ℕ → ℕ → List String
page_of_slice slice page per_page =
    if eqb page 1
    then (if ltb (length slice) per_page then slice else take per_page slice)
    else if eqb page (length slice / per_page + 1)
    then drop (per_page * (page - 1)) slice
    else if leb page (length slice / per_page) && leb (page * per_page) (length slice)
    then (let r = page * per_page in let l = r - per_page in take (r - l) (drop l slice))
    else []

-- GetPageOfSlice
unfoldable pub get_page_of_slice : List String → ℤ → ℤ → ℕ → Result PagingError (List String)
unfolding validate_paging_params page_of_slice
get_page_of_slice slice page per_page max_per_page =
    validate_paging_params page per_page max_per_page >>= λ _.
    ok (page_of_slice slice (pos_part page) (pos_part per_page))

-- A parameter's value: a default if it is empty, an error if it is no number.
unfoldable pub parse_param : String → ℤ → PagingError → Result PagingError ℤ
unfolding atoi
parse_param text default invalid =
    if text == "" then ok default else elim (atoi text) [ none ↦ err invalid | some n ↦ ok n ]

-- ParsePagingParams
unfoldable pub parse_paging_params : String → String → ℕ → Result PagingError (ℤ × ℤ)
parse_paging_params page per_page max_per_page =
    parse_param page (pos 1) (invalid_page page) >>= λ parsed_page.
    parse_param per_page (pos max_per_page) (invalid_per_page per_page) >>= λ parsed_per_page.
    validate_paging_params parsed_page parsed_per_page max_per_page >>= λ _.
    ok (parsed_page, parsed_per_page)
