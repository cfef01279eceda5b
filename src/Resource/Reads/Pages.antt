-- ===== src/Resource/Reads/Pages.antt =====
-- A page of the storage in the loops that read all of it.
use Prim.Native.Nat.{min}
use lslc_core.Common.{
  ℕ, zero, suc, ◌-◌, ◌*◌, ◌≤◌, ◌<◌, true, false, ◌≡◌, refl, ap, sym, ◌∙◌, List, ok, leb, leb→le,
  arith, length, take, drop, ok_injective,
}
use lslc_core.Common.Int.{pos}
use lslc_core.Paging.{get_paging_attr, paging_attr, validate_paging_params}
use lslc_core.Resource.{Device}
use lslc_core.Resource.Store.{CatalogStorage, max_per_page, IsReliable}

-- A total that a page reports, and what it says of the end of the collection.
last_page :
    (t total bound l : ℕ)
    → (0 < l → t ≡ total)
    → (l ≡ 0 → total ≤ bound)
    → leb t bound ≡ true
    → total ≤ bound
last_page t total bound zero full empty last = empty refl
last_page t total bound (suc l) full empty last =
    let h = leb→le t bound last in let k = full (omega arith) in omega arith

not_last : (t total bound : ℕ) → t ≤ total → leb t bound ≡ false → bound < total
not_last t total bound h more = ground arith

-- The window of a page that begins inside the collection.
attr_at :
    (total n : ℕ)
    → n * 100 ≤ total
    → get_paging_attr total (pos (suc n)) (pos 100) max_per_page
      ≡ ok (n * 100, min 100 (total - n * 100))
unfolding get_paging_attr validate_paging_params paging_attr
attr_at total n h = ground arith

-- A reliable storage serves the page of a hundred devices after the first hundreds, and the test
-- `page*perPage >= total` tells whether any device is left.
pub page_at :
    (s : CatalogStorage) (x : s.State)
    → IsReliable s x
    → (n : ℕ) → n * 100 ≤ length (s.devices x)
    → let all = s.devices x in
      (r : List Device × ℕ) × (s.list (pos (suc n)) (pos max_per_page) x ≡ ok r)
      × (r.0 ≡ take (min 100 (length all - n * 100)) (drop (n * 100) all))
      × (leb r.1 (suc n * 100) ≡ true → length all ≤ suc n * 100)
      × (leb r.1 (suc n * 100) ≡ false → suc n * 100 < length all)
page_at s x reliable n h =
    let all = s.devices x in
    let o = n * 100 in
    let l = min 100 (length all - o) in
    let attr = attr_at (length all) n h in
    let (r, listed) = reliable.paged (pos (suc n)) (pos max_per_page) (o, l) attr in
    let (o', l', attr', cut, full, most) =
      s.list_ok (pos (suc n)) (pos max_per_page) x r.0 r.1 listed in
    let same : ◌≡◌ {A = ℕ × ℕ} (o, l) (o', l') = ok_injective (sym attr ∙ attr') in
    (
      r,
      listed,
      cut ∙ ap (λ (w : ℕ × ℕ). take w.1 (drop w.0 all)) (sym same),
      λ last.
          last_page r.1 (length all) (suc n * 100) l' full
            (λ z. omega (arith, ap (λ (w : ℕ × ℕ). w.1) same)) last,
      λ more. not_last r.1 (length all) (suc n * 100) most more,
    )
