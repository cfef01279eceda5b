-- ===== src/Resource/Reads/Scan.antt =====
-- The loop of filter over the pages of the storage reads every device, and ends.
use Prim.Native.Nat.{min}
use mathlib.Core.List.{map-append}
use lslc_core.Common.{
  ℕ, zero, suc, ◌+◌, ◌-◌, ◌*◌, ◌≤◌, ◌<◌, String, Bool, true, false, ◌≡◌, refl, ap, sym, ◌∙◌, List,
  [], ◌∷◌, ◌++◌, Result, ok, err, ◌>>=◌, result_map, if◌then◌else◌, arith, leb, Bool-cases,
  Result-cases, inl, inr, length, take, drop, length-drop, take-append-drop, drop-drop, take_all,
}
use lslc_core.Common.Int.{ℤ}
use lslc_core.PathFilter.{MatchError}
use lslc_core.Resource.{Device, SimpleDevice, CatalogError, simplify, simplify_all}
use lslc_core.Resource.Store.{IsReliable}
use lslc_core.Resource.Reads.Pages.{page_at}
use lslc_core.Resource.State.{Env, Controller}
use lslc_core.Resource.Reads.{matching, scan, filter, matches_device, paginate}

either {ℓ} :
    {A : Type ℓ} (b : Bool) (x : A) (here later : List A)
    → ◌≡◌ {A = Result CatalogError (List A)}
        (ok (if b then x ∷ (here ++ later) else here ++ later))
        (ok ((if b then x ∷ here else here) ++ later))
either true x here later = refl
either false x here later = refl

then_ok {ℓ} : {A : Type ℓ} (r : Result CatalogError A) → (r >>= λ a. ok a) ≡ r
then_ok (ok a) = refl
then_ok (err x) = refl

simplify_all-append :
    (xs ys : List Device) → simplify_all (xs ++ ys) ≡ simplify_all xs ++ simplify_all ys
unfolding simplify_all
simplify_all-append xs ys = map-append simplify xs ys

-- A match over two lists is a match over the first, then over the second.
matching-append {ℓ} :
    {A : Type ℓ} (test : A → Result MatchError Bool) (xs ys : List A)
    → matching test (xs ++ ys)
      ≡ (matching test xs >>= λ here. result_map (λ later. here ++ later) (matching test ys))
unfolding matching
matching-append test [] ys = elim (Result-cases (matching test ys)) [
  | inl (l, good) ↦ rw good
  | inr (f, bad) ↦ rw bad
]
matching-append test (x ∷ xs) ys = elim (Result-cases (test x)) [
  | inr (f, bad) ↦ rw (bad, matching)
  | inl (b, tested) ↦
      let ih = matching-append test xs ys in
      elim (Result-cases (matching test xs)) [
        | inr (f, bad) ↦ rw (tested, ih, bad, matching)
        | inl (here, good) ↦ elim (Result-cases (matching test ys)) [
          | inr (f, bad) ↦ rw (tested, ih, good, bad, matching)
          | inl (later, good') ↦ rw (tested, ih, good, good', matching) (either b x here later)
        ]
      ]
]

module _ (e : Env) (c : Controller e) (reliable : IsReliable e.storage c.storage) where
  abbrev all : List Device
  all = e.storage.devices c.storage

  pub scan-eq-matching :
      (test : SimpleDevice → Result MatchError Bool) (fuel n : ℕ)
      → n * 100 ≤ length all
      → length all < (n + fuel) * 100
      → scan e test fuel (suc n) c ≡ matching test (simplify_all (drop (n * 100) all))
  unfolding scan
  scan-eq-matching test zero n h k = absurd (omega arith)
  scan-eq-matching test (suc fuel) n h k =
      let o = n * 100 in
      let l = min 100 (length all - o) in
      let (r, listed, slice, end_, beyond_) = page_at e.storage c.storage reliable n h in
      elim (Bool-cases (leb r.1 (suc n * 100))) [
        | inl last ↦
            let ended : length all ≤ suc n * 100 = end_ last in
            let whole : take l (drop o all) ≡ drop o all =
              take_all l (drop o all) (omega (arith, length-drop o all)) in
            rw (listed, last, scan)
              (then_ok (matching test (simplify_all r.0))
                ∙ ap (λ ds. matching test (simplify_all ds)) (slice ∙ whole))
        | inr more ↦
            let beyond : suc n * 100 < length all = beyond_ more in
            let hundred : l ≡ 100 = omega arith in
            let next : o + 100 ≡ suc n * 100 = omega arith in
            let ih = scan-eq-matching test fuel (suc n) (omega arith) (omega arith) in
            let parts : r.0 ++ drop (suc n * 100) all ≡ drop o all =
              ap (λ ds. ds ++ drop (suc n * 100) all)
                (slice ∙ ap (λ k. take k (drop o all)) hundred)
              ∙ (ap (λ ds. take 100 (drop o all) ++ ds)
                    (ap (λ k. drop k all) (sym next) ∙ sym (drop-drop o 100 all))
                  ∙ take-append-drop 100 (drop o all)) in
            rw (listed, more, ih, scan)
              (sym (matching-append test (simplify_all r.0) (simplify_all (drop (suc n * 100) all)))
                ∙ ap (matching test) (
                    sym (simplify_all-append r.0 (drop (suc n * 100) all)) ∙ ap simplify_all parts))
      ]

  -- If the storage fails nowhere where it could succeed, and there is a round for each hundred
  -- devices and one more, filter returns the page of the devices that match, taken over the whole
  -- collection, or the first error of the match.
  pub filter-eq-matching :
      (fuel : ℕ) (path op value : String) (page per_page : ℤ)
      → length all < fuel * 100
      → filter e fuel c path op value page per_page ≡ (
          matching (matches_device e path op value) (simplify_all all) >>= λ found.
          paginate found page per_page)
  unfolding filter
  filter-eq-matching fuel path op value page per_page h =
      rw (scan-eq-matching (matches_device e path op value) fuel 0 (omega arith) (omega arith))
