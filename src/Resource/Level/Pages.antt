-- ===== src/Resource/Level/Pages.antt =====
-- The pages of the LevelDB storage.
use lslc_core.Common.{
  ℕ, suc, ◌+◌, ◌-◌, ◌≤◌, ◌<◌, String, false, ◌≡◌, refl, ap, sym, ◌∙◌, List, [], ◌∷◌, Result, ok,
  err, ◌>>=◌, result_map, leb, leb→le, take, drop, take-nil, drop-nil, length, map, arith,
  Result-cases, Bool-cases, Option-cases, inl, inr, ok_injective,
}
use lslc_core.Common.Int.{ℤ}
use lslc_core.Paging.{get_paging_attr}
use lslc_core.Resource.{Device, CatalogError}
use lslc_core.Resource.Store.{max_per_page}
use lslc_core.Resource.Level.View.{entry, devices}
use lslc_core.Resource.Level.{Codec, Database, passed_on, total, read_page, list}

not_past : (a i : ℕ) → leb a i ≡ false → i < a
not_past a i h = ground arith

result_map_ok {ℓ κ μ} :
    {E : Type ℓ} {A : Type κ} {B : Type μ} (f : A → B) (r : Result E A) (b : B)
    → result_map f r ≡ ok b
    → (a : A) × (r ≡ ok a) × (f a ≡ b)
result_map_ok f (ok a) b h = (a, refl, ok_injective h)
result_map_ok f (err e) b h = cc

pub length-map {ℓ κ} :
    {A : Type ℓ} {B : Type κ} (f : A → B) (l : List A) → length (map f l) ≡ length l
length-map f [] = refl
length-map f (x ∷ l) = ap suc (length-map f l)

module _ {Bytes : Type 0} (db : Database Bytes) (codec : Codec Bytes) where
  -- The loop of list reads the devices of the window that is left, from the entry `i` on.
  read_page_lem :
      (o l i : ℕ) (es : List (String × Bytes)) (ds : List Device)
      → i ≤ o + l
      → read_page db codec o (o + l) i es ≡ ok ds
      → ds ≡ take (l - (i - o)) (drop (o - i) (map (entry db codec) es))
  unfolding read_page
  read_page_lem o l i [] ds h e =
      sym (ok_injective e)
      ∙ (sym (take-nil (l - (i - o))) ∙ ap (take (l - (i - o))) (sym (drop-nil (o - i))))
  read_page_lem o l i ((k, b) ∷ es) ds h e = elim (Result-cases (codec.decode b)) [
    | inr (m, failed) ↦ let bad : ⊥ = cc (rw (failed, read_page, passed_on) at e) in absurd bad
    | inl (d, read) ↦ elim (Bool-cases (leb (o + l) i)) [
      | inl past ↦
          let ended : l - (i - o) ≡ 0 = let far = leb→le (o + l) i past in omega arith in
          let nothing : ◌≡◌ {A = Result CatalogError (List Device)} (ok []) (ok ds) =
            rw (read, past, read_page, passed_on, ◌>>=◌) at e in
          sym (ok_injective nothing)
          ∙ ap (λ n. take n (drop (o - i) (map (entry db codec) ((k, b) ∷ es)))) (sym ended)
      | inr more ↦
          let within : suc i ≤ o + l = not_past (o + l) i more in
          elim (Bool-cases (leb o i)) [
            | inr early ↦
                let before : i < o = not_past o i early in
                let e' : read_page db codec o (o + l) (suc i) es ≡ ok ds =
                  rw (read, more, early, read_page, passed_on, ◌>>=◌) at e in
                let ih = read_page_lem o l (suc i) es ds within e' in
                let skip : o - i ≡ suc (o - suc i) = omega arith in
                let all_left : l - (suc i - o) ≡ l - (i - o) = omega arith in
                ih
                ∙ (ap (λ n. take n (drop (o - suc i) (map (entry db codec) es))) all_left
                    ∙ ap (λ n. take (l - (i - o)) (drop n (map (entry db codec) ((k, b) ∷ es))))
                        (sym skip))
            | inl late ↦
                let reached : o ≤ i = leb→le o i late in
                let found : entry db codec (k, b) ≡ d = rw (read, entry) refl in
                let e' : result_map (λ l'. d ∷ l') (read_page db codec o (o + l) (suc i) es)
                    ≡ ok ds =
                  rw (read, more, late, read_page, passed_on, ◌>>=◌) at e in
                let (ds', e'', whole) =
                  result_map_ok (λ l'. d ∷ l') (read_page db codec o (o + l) (suc i) es) ds e' in
                let ih = read_page_lem o l (suc i) es ds' within e'' in
                let here : o - i ≡ 0 = omega arith in
                let there : o - suc i ≡ 0 = omega arith in
                let one_less : l - (i - o) ≡ suc (l - (suc i - o)) = omega arith in
                sym whole
                ∙ (ap (λ l'. d ∷ l')
                      (ih
                        ∙ ap (λ n. take (l - (suc i - o)) (drop n (map (entry db codec) es))) there)
                    ∙ (ap (λ y. y ∷ take (l - (suc i - o)) (map (entry db codec) es)) (sym found)
                        ∙ (ap (λ n. take n (map (entry db codec) ((k, b) ∷ es))) (sym one_less)
                            ∙ ap
                                (λ n.
                                  take (l - (i - o)) (drop n (map (entry db codec) ((k, b) ∷ es))))
                                (sym here))))
          ]
    ]
  ]

  read_all :
      (o l : ℕ) (es : List (String × Bytes)) (ds : List Device)
      → read_page db codec o (o + l) 0 es ≡ ok ds
      → ds ≡ take l (drop o (map (entry db codec) es))
  read_all o l es ds e =
      let left : l - (0 - o) ≡ l = omega arith in
      let from : o - 0 ≡ o = omega arith in
      read_page_lem o l 0 es ds (omega arith) e
      ∙ (ap (λ n. take n (drop (o - 0) (map (entry db codec) es))) left
          ∙ ap (λ n. take l (drop n (map (entry db codec) es))) from)

  pub list_ok :
      (page per_page : ℤ) (s : db.State) (ds : List Device) (t : ℕ)
      → list db codec page per_page s ≡ ok (ds, t)
      → (offset : ℕ) × (limit : ℕ) × (get_paging_attr
            (length (devices db codec s))
            page
            per_page
            max_per_page
          ≡ ok (offset, limit))
        × (ds ≡ take limit (drop offset (devices db codec s)))
        × (0 < limit → t ≡ length (devices db codec s))
        × (t ≤ length (devices db codec s))
  unfolding list total
  list_ok page per_page s ds t h = elim (Option-cases (db.scan s).1) [
    | inr (m, broken) ↦ let bad : ⊥ = cc (rw (broken, list, total, ◌>>=◌) at h) in absurd bad
    | inl fine ↦
        let n = length (db.scan s).0 in
        let counted : length (devices db codec s) ≡ n = length-map (entry db codec) (db.scan s).0 in
        elim (Result-cases (get_paging_attr n page per_page max_per_page)) [
          | inr (x, refused) ↦
              let bad : ⊥ = cc (rw (fine, refused, list, total, ◌>>=◌) at h) in absurd bad
          | inl ((o, l), attr) ↦
              elim (Result-cases (read_page db codec o (o + l) 0 (db.scan s).0)) [
                | inr (x, failed) ↦
                    let bad : ⊥ = cc (rw (fine, attr, failed, list, total, ◌>>=◌) at h) in
                    absurd bad
                | inl (ds', read) ↦
                    let r : ◌≡◌ {A = Result CatalogError (List Device × ℕ)} (ok (ds', n))
                        (ok (ds, t)) =
                      rw fine at (rw (fine, attr, read, list, total, ◌>>=◌) at h) in
                    let same : ds' ≡ ds = ap (λ (q : List Device × ℕ). q.0) (ok_injective r) in
                    let all_counted : n ≡ t = ap (λ (q : List Device × ℕ). q.1) (ok_injective r) in
                    (
                      o,
                      l,
                      rw counted attr,
                      sym same ∙ read_all o l (db.scan s).0 ds' read,
                      λ p. sym all_counted ∙ sym counted,
                      omega arith,
                    )
              ]
        ]
  ]
