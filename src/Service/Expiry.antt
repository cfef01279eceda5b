-- ===== src/Service/Expiry.antt =====
-- The index from expiry times to service ids, and how removeIndices changes it:
-- src/linksmart.eu/lc/core/catalog/service/controller.go.
pub mod Sound
pub mod Steps
use lslc_core.Common.{
  ℕ, zero, suc, ◌<◌, String, true, false, not, ◌≡◌, refl, ap, sym, ◌∙◌, List, [], ◌∷◌, ◌++◌, Option,
  none, some, ◌==◌, arith, Bool-cases, inl, inr, ◌⊎◌, find_first, In, All, keep, length,
  length-append, eqb, find_first_passes,
}
use lslc_core.Tree.{is_zero}
use lslc_core.Tree.Nodes.{Map, time_keys}
use lslc_core.Resource.Indices.Expiry.{
  is_zero-time_keys, other_keys, match_or_none, other_keys-All, other_keys_drop,
}
use lslc_core.Service.Controller.{Env, drain, remove_expiry}

module _ (e : Env) where
  drain_stop :
      (fuel : ℕ) (m : Map ℕ) (sid : String) (t : e.exp_tree.Tree) (temp : List (Map ℕ))
      → e.exp_tree.remove m t ≡ (t, none)
      → drain e (suc fuel) m sid t temp ≡ (t, temp)
  unfolding drain
  drain_stop fuel m sid t temp h =
      let gone : (e.exp_tree.remove m t).1 ≡ none =
        ap (λ (r : e.exp_tree.Tree × Option (Map ℕ)). r.1) h in
      let same : (e.exp_tree.remove m t).0 ≡ t =
        ap (λ (r : e.exp_tree.Tree × Option (Map ℕ)). r.0) h in
      rw (gone, same, drain)

  drain_step :
      (fuel : ℕ) (m z : Map ℕ) (sid : String) (t : e.exp_tree.Tree) (temp : List (Map ℕ))
      → (m.value == sid) ≡ true
      → (e.exp_tree.remove m t).1 ≡ some z
      → drain e (suc fuel) m sid t temp ≡ drain e fuel m sid (e.exp_tree.remove m t).0 temp
  unfolding drain
  drain_step fuel m z sid t temp same h = rw (h, same, drain)

  -- With as many rounds as there are nodes, and one, the loop removes every node with the key of
  -- `m`, and puts none aside, since the id that it tests is the one that it looked for.
  drain_lem :
      (fuel : ℕ) (m : Map ℕ) (sid : String) (t : e.exp_tree.Tree)
      → (m.value == sid) ≡ true
      → length (e.exp_tree.items t) < fuel
      → (e.exp_tree.items (drain e fuel m sid t []).0 ≡ other_keys m.key (e.exp_tree.items t))
        × ((drain e fuel m sid t []).1 ≡ [])
  drain_lem zero m sid t same h = absurd (omega arith)
  drain_lem (suc fuel) m sid t same h = elim (match_or_none m (e.exp_tree.items t)) [
    | inr all ↦
        rw (drain_stop fuel m sid t [] (e.exp_tree.remove_none m t all))
          (sym (other_keys-All m (e.exp_tree.items t) all), refl)
    | inl (y, there, hit) ↦
        let (before, after, z, cut, zero_z, found, left) = e.exp_tree.remove_one m y t there hit in
        let t' = (e.exp_tree.remove m t).0 in
        let shorter : length (e.exp_tree.items t') < fuel = omega (
          arith,
          ap length cut,
          ap length left,
          length-append before (z ∷ after),
          length-append before after,
        ) in
        let (kept, none_aside) = drain_lem fuel m sid t' same shorter in
        let same_rest : other_keys m.key (e.exp_tree.items t')
            ≡ other_keys m.key (e.exp_tree.items t) =
          rw (left, cut)
            (sym (other_keys_drop m.key before after z (rw is_zero-time_keys at zero_z))) in
        rw (drain_step fuel m z sid t [] same found) (kept ∙ same_rest, none_aside)
  ]

  -- The node that removeIndices looks for.
  abbrev pub node_of : String → e.exp_tree.Tree → Option (Map ℕ)
  node_of sid t = find_first (λ m. m.value == sid) (e.exp_tree.items t)

  pub items-remove_expiry-none :
      (sid : String) (t : e.exp_tree.Tree) → node_of sid t ≡ none → remove_expiry e sid t ≡ t
  unfolding remove_expiry
  items-remove_expiry-none sid t h = rw (h, remove_expiry)

  -- The inner loop takes out all nodes with the key of the node that was found, those of other
  -- services too, and none comes back.
  pub items-remove_expiry :
      (sid : String) (t : e.exp_tree.Tree) (m : Map ℕ)
      → node_of sid t ≡ some m
      → e.exp_tree.items (remove_expiry e sid t) ≡ other_keys m.key (e.exp_tree.items t)
  unfolding remove_expiry
  items-remove_expiry sid t m h =
      let (same, there) =
        find_first_passes (λ (x : Map ℕ). x.value == sid) (e.exp_tree.items t) m h in
      let (kept, none_aside) =
        drain_lem (suc (length (e.exp_tree.items t))) m sid t same (omega arith) in
      rw (h, none_aside, remove_expiry) kept
