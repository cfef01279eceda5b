-- ===== src/Paging/Pages.antt =====
-- Pages against the list that they are cut from.
use lslc_core.Common.{
  ℕ, zero, suc, ◌+◌, ◌-◌, ◌*◌, ◌/◌, ◌≤◌, ◌<◌, ◌≡◌, String, List, [], ◌++◌, result_map, arith,
  length, take, drop, take_all, take-add, length-drop,
}
use lslc_core.Common.Int.{ℤ, pos_part}
use lslc_core.Paging.{paging_attr, get_paging_attr, page_of_slice, get_page_of_slice}

-- The items at an offset and limit.
abbrev pub window : List String → ℕ × ℕ → List String
window slice w = take w.1 (drop w.0 slice)

-- In every round the page is the window that `paging_attr` gives.
page_of_slice-eq-window :
    (slice : List String) (page per_page : ℕ)
    → 0 < page
    → 0 < per_page
    → page_of_slice slice page per_page ≡ window slice (paging_attr (length slice) page per_page)
unfolding page_of_slice paging_attr
page_of_slice-eq-window slice page per_page h k = ground (
  arith,
  take_all (length slice) slice,
  take_all (length slice - per_page * (page - 1)) (drop (per_page * (page - 1)) slice),
  length-drop (per_page * (page - 1)) slice,
)

-- GetPageOfSlice returns exactly the items at the offset and limit of GetPagingAttr, and fails
-- exactly when that fails, with the same error.
pub get_page_of_slice-eq-window :
    (slice : List String) (page per_page : ℤ) (most : ℕ)
    → get_page_of_slice slice page per_page most
      ≡ result_map (window slice) (get_paging_attr (length slice) page per_page most)
unfolding get_page_of_slice get_paging_attr
get_page_of_slice-eq-window slice page per_page most =
    ground (arith, page_of_slice-eq-window slice (pos_part page) (pos_part per_page))

-- The pages 1 to `n`, one after the other.
abbrev pub first_pages : List String → ℕ → ℕ → List String
first_pages slice per_page zero = []
first_pages slice per_page (suc n) =
    first_pages slice per_page n ++ page_of_slice slice (suc n) per_page

full_page_attr :
    (total n per_page : ℕ)
    → 0 < per_page
    → suc n ≤ total / per_page
    → ((paging_attr total (suc n) per_page).0 ≡ n * per_page)
      × ((paging_attr total (suc n) per_page).1 ≡ per_page)
unfolding paging_attr
full_page_attr total n per_page k h =
    let fits : suc n * per_page ≤ total = grind arith in
    let step : suc n * per_page ≡ n * per_page + per_page = omega arith in ground arith

last_page_attr :
    (total per_page : ℕ)
    → 0 < per_page
    → ((paging_attr total (suc (total / per_page)) per_page).0 ≡ total / per_page * per_page)
      × ((paging_attr total (suc (total / per_page)) per_page).1
          ≡ total - total / per_page * per_page)
unfolding paging_attr
last_page_attr total per_page k = grind arith

first_pages-eq-take :
    (slice : List String) (per_page n : ℕ)
    → 0 < per_page
    → n ≤ length slice / per_page
    → first_pages slice per_page n ≡ take (n * per_page) slice
first_pages-eq-take slice per_page zero k h = let e : 0 * per_page ≡ 0 = omega arith in rw e
first_pages-eq-take slice per_page (suc n) k h =
    let (o, l) = full_page_attr (length slice) n per_page k h in
    let e : suc n * per_page ≡ n * per_page + per_page = omega arith in
    rw (
      first_pages-eq-take slice per_page n k (omega arith),
      page_of_slice-eq-window slice (suc n) per_page (omega arith) k,
      o,
      l,
      e,
      take-add (n * per_page) per_page slice,
    )

-- For a positive page size, the pages from the first to the last, the one after the full ones,
-- make up the slice, one after the other: every item is on exactly one page.
pub pages_partition :
    (slice : List String) (per_page : ℕ)
    → 0 < per_page
    → first_pages slice per_page (suc (length slice / per_page)) ≡ slice
pages_partition slice per_page k =
    let total = length slice in
    let full = total / per_page * per_page in
    let (o, l) = last_page_attr total per_page k in
    let e : full + (total - full) ≡ total = grind arith in
    rw
      (
        first_pages-eq-take slice per_page (total / per_page) k (omega arith),
        page_of_slice-eq-window slice (suc (total / per_page)) per_page (omega arith) k,
        o,
        l,
        ← take-add full (total - full) slice,
        e,
      )
      (take_all total slice (omega arith))
