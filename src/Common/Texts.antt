-- ===== src/Common/Texts.antt =====
-- The functions of Go's package `strings` that the program calls. A text is compared whole as a
-- native string, and searched as the list of its code points.
use Prim.Native.Nat.{ℕ, suc, ◌+◌, ◌-◌}
use Prim.Native.Char.{code}
use Prim.Native.String
use Prim.Native.String.{String}
use mathlib.Core.Path.{◌≡◌, refl, ap, sym, ◌∙◌}
use mathlib.Core.Logic.{inl, inr, ◌↔◌}
use mathlib.Core.Bool.{Bool, true, false, ◌&&◌, ◌||◌, and-eq-true_iff}
use mathlib.Core.List.{List, [], ◌∷◌, ◌++◌}
use native.Mathlib.Omega.{arith}
use lslc_core.Common.Tests.{eqb, leb, if◌then◌else◌, Bool-cases}
use lslc_core.Common.Lists.{length, drop, take, length-append, take-append-drop}

abbrev pub codes : String → List ℕ
codes String.[] = []
codes (String.◌∷◌ c s) = code c ∷ codes s

-- strings.HasPrefix(s, t)
unfoldable pub has_prefix : List ℕ → List ℕ → Bool
has_prefix s [] = true
has_prefix [] (d ∷ t) = false
has_prefix (c ∷ s) (d ∷ t) = eqb c d && has_prefix s t

same_codes : List ℕ → List ℕ → Bool
same_codes [] [] = true
same_codes (c ∷ s) (d ∷ t) = eqb c d && same_codes s t
same_codes _ _ = false

-- strings.HasSuffix(s, t)
unfoldable pub has_suffix : List ℕ → List ℕ → Bool
unfolding same_codes
has_suffix s t = leb (length t) (length s) && same_codes (drop (length s - length t) s) t

-- strings.Contains(s, t)
unfoldable pub contains : List ℕ → List ℕ → Bool
contains [] t = has_prefix [] t
contains (c ∷ s) t = has_prefix (c ∷ s) t || contains s t

-- strings.Count(s, c), for a single character
unfoldable pub count_of : List ℕ → ℕ → ℕ
count_of [] d = 0
count_of (c ∷ s) d = let rest = count_of s d in if eqb c d then suc rest else rest

-- strings.Split(s, c), for a single character, from the piece read so far
split_from : String → String → ℕ → List String
split_from piece String.[] d = piece ∷ []
split_from piece (String.◌∷◌ c s) d =
    let cut = piece ∷ split_from String.[] s d in
    let longer = split_from (String.◌++◌ piece (String.◌∷◌ c String.[])) s d in
    if eqb (code c) d then cut else longer

unfoldable pub split : String → ℕ → List String
unfolding split_from
split s d = split_from String.[] s d

-- `t` begins `s` exactly when `s` is `t` and a rest.
pub has_prefix_iff : (s t : List ℕ) → (has_prefix s t ≡ true) ↔ ((rest : List ℕ) × (s ≡ t ++ rest))
unfolding has_prefix
has_prefix_iff s [] = (λ h. (s, refl), λ h. refl)
has_prefix_iff [] (d ∷ t) = (λ h. cc, λ (rest, e). cc)
has_prefix_iff (c ∷ s) (d ∷ t) =
    let (to, from) = has_prefix_iff s t in
    (
      λ h. let (rest, e) = to (ground arith) in (rest, ground arith),
      λ (rest, e). ground (arith, from (rest, ground arith)),
    )

same_codes_iff : (s t : List ℕ) → (same_codes s t ≡ true) ↔ (s ≡ t)
unfolding same_codes
same_codes_iff [] [] = ground arith
same_codes_iff (c ∷ s) (d ∷ t) = ground (arith, same_codes_iff s t)
same_codes_iff [] (d ∷ t) = ground arith
same_codes_iff (c ∷ s) [] = ground arith

drop-append : (s t : List ℕ) → drop (length s) (s ++ t) ≡ t
drop-append [] t = refl
drop-append (c ∷ s) t = drop-append s t

suffix_complete : (s t before : List ℕ) → s ≡ before ++ t → has_suffix s t ≡ true
unfolding has_suffix
suffix_complete s t before e =
    let len : length s ≡ length before + length t = ap length e ∙ length-append before t in
    let cut : length s - length t ≡ length before = omega arith in
    let rest : drop (length s - length t) s ≡ t =
      ap (λ n. drop n s) cut ∙ (ap (λ x. drop (length before) x) e ∙ drop-append before t) in
    ground (arith, (same_codes_iff (drop (length s - length t) s) t).1 rest)

-- `t` ends `s` exactly when `s` is something and `t`.
pub has_suffix_iff :
    (s t : List ℕ) → (has_suffix s t ≡ true) ↔ ((before : List ℕ) × (s ≡ before ++ t))
has_suffix_iff s t = (
  λ h.
      let n = length s - length t in
      let (_, same) =
        (and-eq-true_iff (leb (length t) (length s)) (same_codes (drop n s) t)).0
          (unfold has_suffix in h) in
      (
        take n s,
        sym (take-append-drop n s) ∙ ap (λ x. take n s ++ x) ((same_codes_iff (drop n s) t).0 same),
      ),
  λ (before, e). suffix_complete s t before e,
)

abbrev pub IsInside : List ℕ → List ℕ → Type 0
IsInside t s = (before : List ℕ) × (after : List ℕ) × (s ≡ before ++ (t ++ after))

contains_sound : (s t : List ℕ) → contains s t ≡ true → IsInside t s
unfolding contains
contains_sound [] t h = let (rest, e) = (has_prefix_iff [] t).0 h in ([], rest, e)
contains_sound (c ∷ s) t h = elim (Bool-cases (has_prefix (c ∷ s) t)) [
  | inl p ↦ let (rest, e) = (has_prefix_iff (c ∷ s) t).0 p in ([], rest, e)
  | inr p ↦
      let (before, after, e) = contains_sound s t (rw p at h) in
      (c ∷ before, after, ap (λ x. c ∷ x) e)
]

contains_complete : (s t before after : List ℕ) → s ≡ before ++ (t ++ after) → contains s t ≡ true
unfolding contains
contains_complete [] t [] after e = (has_prefix_iff [] t).1 (after, e)
contains_complete [] t (b ∷ before) after e = cc
contains_complete (c ∷ s) t [] after e = rw ((has_prefix_iff (c ∷ s) t).1 (after, e)) refl
contains_complete (c ∷ s) t (b ∷ before) after e =
    ground (arith, contains_complete s t before after (ground arith))

-- `t` is found exactly when it stands somewhere inside.
pub contains_iff : (s t : List ℕ) → (contains s t ≡ true) ↔ IsInside t s
contains_iff s t = (contains_sound s t, λ (before, after, e). contains_complete s t before after e)
