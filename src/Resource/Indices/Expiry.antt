-- ===== src/Resource/Indices/Expiry.antt =====
-- The index from expiry times to device ids, and how removeIndices changes it.
use lslc_core.Common.{
  ℕ, zero, suc, ◌<◌, String, true, false, not, ◌≡◌, refl, ap, sym, ◌∙◌, List, [], ◌∷◌, ◌++◌, Option,
  none, some, ◌==◌, arith, Bool-cases, inl, inr, ◌⊎◌, find_first, In, All, keep, length,
  length-append, eqb, find_first_passes,
}
use lslc_core.Tree.{is_zero}
use lslc_core.Tree.Nodes.{Map, time_keys}
use lslc_core.Resource.State.{Env, drain, remove_expiry}

pub is_zero-time_keys : (a b : Map ℕ) → is_zero (time_keys a b) ≡ eqb a.key b.key
unfolding time_keys
is_zero-time_keys a b = ground arith

-- The nodes whose key is not `k`.
abbrev pub other_keys : ℕ → List (Map ℕ) → List (Map ℕ)
other_keys k = keep (λ m. not (eqb k m.key))

pub match_or_none :
    (m : Map ℕ) (l : List (Map ℕ))
    → ((y : Map ℕ) × In y l × (is_zero (time_keys m y) ≡ true))
      ⊎ All (λ y. is_zero (time_keys m y) ≡ false) l
match_or_none m [] = inr tt
match_or_none m (y ∷ l) = elim (Bool-cases (is_zero (time_keys m y))) [
  | inl hit ↦ inl (y, inl refl, hit)
  | inr miss ↦ elim (match_or_none m l) [
    | inl (z, there, hit) ↦ inl (z, inr there, hit)
    | inr all ↦ inr (miss, all)
  ]
]

pub other_keys-All :
    (m : Map ℕ) (l : List (Map ℕ))
    → All (λ y. is_zero (time_keys m y) ≡ false) l
    → other_keys m.key l ≡ l
other_keys-All m [] h = refl
other_keys-All m (y ∷ l) (h, hs) = ground (arith, is_zero-time_keys m y, other_keys-All m l hs)

pub other_keys_drop :
    (k : ℕ) (before after : List (Map ℕ)) (z : Map ℕ)
    → eqb k z.key ≡ true
    → other_keys k (before ++ (z ∷ after)) ≡ other_keys k (before ++ after)
other_keys_drop k [] after z h = ground arith
other_keys_drop k (b ∷ before) after z h = ground (arith, other_keys_drop k before after z h)

module _ (e : Env) where
  drain_stop :
      (fuel : ℕ) (m : Map ℕ) (did : String) (t : e.exp_tree.Tree) (temp : List (Map ℕ))
      → e.exp_tree.remove m t ≡ (t, none)
      → drain e (suc fuel) m did t temp ≡ (t, temp)
  unfolding drain
  drain_stop fuel m did t temp h =
      let gone : (e.exp_tree.remove m t).1 ≡ none =
        ap (λ (r : e.exp_tree.Tree × Option (Map ℕ)). r.1) h in
      let same : (e.exp_tree.remove m t).0 ≡ t =
        ap (λ (r : e.exp_tree.Tree × Option (Map ℕ)). r.0) h in
      rw (gone, same, drain)

  drain_step :
      (fuel : ℕ) (m z : Map ℕ) (did : String) (t : e.exp_tree.Tree) (temp : List (Map ℕ))
      → (m.value == did) ≡ true
      → (e.exp_tree.remove m t).1 ≡ some z
      → drain e (suc fuel) m did t temp ≡ drain e fuel m did (e.exp_tree.remove m t).0 temp
  unfolding drain
  drain_step fuel m z did t temp same h = rw (h, same, drain)

  -- With as many rounds as there are nodes, and one, the loop removes every node with the key of
  -- `m`, and puts none aside, since the id that it tests is the one that it looked for.
  drain_lem :
      (fuel : ℕ) (m : Map ℕ) (did : String) (t : e.exp_tree.Tree)
      → (m.value == did) ≡ true
      → length (e.exp_tree.items t) < fuel
      → (e.exp_tree.items (drain e fuel m did t []).0 ≡ other_keys m.key (e.exp_tree.items t))
        × ((drain e fuel m did t []).1 ≡ [])
  drain_lem zero m did t same h = absurd (omega arith)
  drain_lem (suc fuel) m did t same h = elim (match_or_none m (e.exp_tree.items t)) [
    | inr all ↦
        rw (drain_stop fuel m did t [] (e.exp_tree.remove_none m t all))
          (sym (other_keys-All m (e.exp_tree.items t) all), refl)
    | inl (y, there, hit) ↦
        let (before, after, z, cut, zero_z, found, left) = e.exp_tree.remove_one m y t there hit in
        let t' = (e.exp_tree.remove m t).0 in
        let shorter : length (e.exp_tree.items t') < fuel = omega (
          arith,
          ap length cut,
          ap length left,
          length-append before (z ∷ after),
          length-append before after,
        ) in
        let (kept, none_aside) = drain_lem fuel m did t' same shorter in
        let same_rest : other_keys m.key (e.exp_tree.items t')
            ≡ other_keys m.key (e.exp_tree.items t) =
          rw (left, cut)
            (sym (other_keys_drop m.key before after z (rw is_zero-time_keys at zero_z))) in
        rw (drain_step fuel m z did t [] same found) (kept ∙ same_rest, none_aside)
  ]

  -- The node that removeIndices looks for.
  abbrev pub node_of : String → e.exp_tree.Tree → Option (Map ℕ)
  node_of did t = find_first (λ m. m.value == did) (e.exp_tree.items t)

  pub items-remove_expiry-none :
      (did : String) (t : e.exp_tree.Tree) → node_of did t ≡ none → remove_expiry e did t ≡ t
  unfolding remove_expiry
  items-remove_expiry-none did t h = rw (h, remove_expiry)

  -- The inner loop takes out all nodes with the key of the node that was found, those of other
  -- devices too, and none comes back.
  pub items-remove_expiry :
      (did : String) (t : e.exp_tree.Tree) (m : Map ℕ)
      → node_of did t ≡ some m
      → e.exp_tree.items (remove_expiry e did t) ≡ other_keys m.key (e.exp_tree.items t)
  unfolding remove_expiry
  items-remove_expiry did t m h =
      let (same, there) =
        find_first_passes (λ (x : Map ℕ). x.value == did) (e.exp_tree.items t) m h in
      let (kept, none_aside) =
        drain_lem (suc (length (e.exp_tree.items t))) m did t same (omega arith) in
      rw (h, none_aside, remove_expiry) kept
