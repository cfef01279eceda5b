-- ===== src/Paging/Bounds.antt =====
-- The offset and the limit of a page stay inside the collection and inside the page size.
use lslc_core.Common.{ℕ, ◌+◌, ◌≤◌, ◌<◌, ◌≡◌, ok, arith}
use lslc_core.Common.Int.{ℤ, pos_part}
use lslc_core.Paging.{validate_paging_params, paging_attr, get_paging_attr}

pub paging_attr_bounds :
    (total page per_page : ℕ)
    → 0 < page
    → 0 < per_page
    → ((paging_attr total page per_page).0 + (paging_attr total page per_page).1 ≤ total)
      × ((paging_attr total page per_page).1 ≤ per_page)
unfolding paging_attr
paging_attr_bounds total page per_page h k = grind arith

-- What passes the validation is positive and within the maximum.
pub validate_bounds :
    (page per_page : ℤ) (most : ℕ)
    → validate_paging_params page per_page most ≡ ok tt
    → (0 < pos_part page) × (0 < pos_part per_page) × (pos_part per_page ≤ most)
unfolding validate_paging_params
validate_bounds page per_page most h = ground arith

-- For every accepted request, the slice from the offset, of the limit's length, lies inside the
-- collection, and it holds at most `per_page` items.
pub get_paging_attr_bounds :
    (total : ℕ) (page per_page : ℤ) (most offset limit : ℕ)
    → get_paging_attr total page per_page most ≡ ok (offset, limit)
    → (offset + limit ≤ total) × (limit ≤ pos_part per_page) × (pos_part per_page ≤ most)
unfolding get_paging_attr
get_paging_attr_bounds total page per_page most offset limit h = ground (
  arith,
  validate_bounds page per_page most,
  paging_attr_bounds total (pos_part page) (pos_part per_page),
)
