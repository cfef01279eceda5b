-- ===== src/Resource/Controller/Ties.antt =====
-- Devices that expire at the same time: removeIndices takes out the nodes of all of them.
use lslc_core.Common.{
  ℕ, String, false, not, ◌≡◌, ap, ◌∙◌, subst, List, some, ok, ◌==◌, eq_iff, arith, eqb, Bool-cases,
  Result-cases, inl, inr, In, In-keep, find_first_passes,
}
use lslc_core.Tree.Nodes.{Map}
use lslc_core.Resource.{Device}
use lslc_core.Resource.State.{Env, Controller, remove_indices}
use lslc_core.Resource.Controller.{delete}
use lslc_core.Resource.Controller.Expired.{Untimed, ticks, Untimed-stays}
use lslc_core.Resource.Controller.Changes.{delete_outcome}
use lslc_core.Resource.Controller.Invariant.{delete-IsIndexed}
use lslc_core.Resource.Indices.Expiry.{node_of, items-remove_expiry}
use lslc_core.Resource.Indices.Sound.{IsIndexed, view}

module _ (e : Env) (c : Controller e) (x : IsIndexed e c) where
  -- Once a device with a node is deleted, no node has its expiry time.
  no_ties :
      (a : String) (old : Device) (n m : Map ℕ)
      → view e c a ≡ some old
      → eqb old.ttl 0 ≡ false
      → node_of e old.id c.exp_did ≡ some n
      → (delete e c a).1 ≡ ok tt
      → In m (e.exp_tree.items (delete e c a).0.exp_did)
      → eqb n.key m.key ≡ false
  unfolding delete remove_indices
  no_ties a old n m was timed found done i = elim (Result-cases (e.storage.get a c.storage)) [
    | inr (y, missing) ↦ let bad : ⊥ = cc (rw (missing, delete) at done) in absurd bad
    | inl (old', got) ↦
        let one : old' ≡ old = cc (e.storage.get_ok a c.storage old' got, was) in
        let got' : e.storage.get a c.storage ≡ ok old = got ∙ ap ok one in
        elim (Result-cases (e.storage.delete a c.storage).1) [
          | inr (y, failed) ↦ let bad : ⊥ = cc (rw (got', failed, delete) at done) in absurd bad
          | inl (_, deleted) ↦
              let (_, other) =
                In-keep (λ (y : Map ℕ). not (eqb n.key y.key)) (e.exp_tree.items c.exp_did) m
                  (rw (got', deleted, delete, timed, items-remove_expiry e old.id c.exp_did n found)
                    at i) in
              ground arith
        ]
  ]

  -- Over sound indices, two stored devices expire at the same time, and the one that is deleted
  -- has a TTL and a node in the expiry index: if its deletion succeeds, the other device is still
  -- stored, unchanged, after any ticks, however late.
  pub tie_never_expires :
      (a b : String) (da db : Device) (at : ℕ) (n : Map ℕ) (nows : List ℕ)
      → view e c a ≡ some da
      → view e c b ≡ some db
      → (a == b) ≡ false
      → da.expires ≡ some at
      → db.expires ≡ some at
      → eqb da.ttl 0 ≡ false
      → node_of e a c.exp_did ≡ some n
      → (delete e c a).1 ≡ ok tt
      → view e (ticks e (delete e c a).0 nows) b ≡ some db
  tie_never_expires a b da db at n nows was_a was_b differs at_a at_b timed found done =
      let c' = (delete e c a).0 in
      let x' = delete-IsIndexed e c a x in
      let kept : view e c' b ≡ some db = elim (delete_outcome e c a) [
        | inl (_, _, views) ↦ views b ∙ (rw differs was_b)
        | inr (_, failed, _) ↦ let bad : ⊥ = cc in absurd bad
      ] in
      let lost : Untimed e b c' = λ m i. elim (Bool-cases (m.value == b)) [
        | inr other ↦ other
        | inl same ↦
            let (d', stored, at_m, _) = x'.timed m i in
            let (hit, there) =
              find_first_passes (λ (y : Map ℕ). y.value == a) (e.exp_tree.items c.exp_did) n
                found in
            let (d'', stored_n, at_n, _) = x.timed n there in
            let one : d' ≡ db = cc (ap (view e c') ((eq_iff m.value b).0 same), stored, kept) in
            let two : d'' ≡ da = cc (ap (view e c) ((eq_iff n.value a).0 hit), stored_n, was_a) in
            let key_m : db.expires ≡ some m.key =
              subst (λ (y : Device). y.expires ≡ some m.key) one at_m in
            let key_n : da.expires ≡ some n.key =
              subst (λ (y : Device). y.expires ≡ some n.key) two at_n in
            let found' : node_of e da.id c.exp_did ≡ some n = rw (x.keyed a da was_a) found in
            let tie : n.key ≡ m.key = cc in
            let apart = no_ties a da n m was_a timed found' done i in ground arith
      ] in
      Untimed-stays e c' nows b lost ∙ kept
