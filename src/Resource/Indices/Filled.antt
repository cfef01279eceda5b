-- ===== src/Resource/Indices/Filled.antt =====
-- What addIndices puts into the indices, and that the loop of initIndices loses none of it.
use lslc_core.Common.{
  ℕ, String, true, false, ◌≡◌, refl, sym, subst, List, [], ◌∷◌, some, ok, In, In-append_left,
  In-append_right, In-append_cases, eqb, arith, Bool-cases, Option-cases, Result-cases, inl, inr,
}
use lslc_core.Tree.Nodes.{Map}
use lslc_core.Resource.{Device}
use lslc_core.Resource.State.{Env, Controller, add_rids, add_indices}
use lslc_core.Resource.Sorting.{has_id}
use lslc_core.Resource.Indices.Rids.{owner, owner-add_rids}
use lslc_core.Resource.Indices.Sound.{IsDated, add_indices_forever, add_indices_timed}
use lslc_core.Resource.Reads.{index_all}

module _ (e : Env) where
  -- The indices have an entry for each resource of a device and, if the device has a TTL, a node
  -- with its expiry time.
  pub record IsCovered (rids : e.rid_tree.Tree) (exps : e.exp_tree.Tree) (d : Device) : Type 0 where
    pub named :
        (rid : String)
        → has_id rid d.resources ≡ true
        → (did : String) × (owner e rids rid ≡ some did)
    pub timed :
        eqb d.ttl 0 ≡ false
        → (m : Map ℕ) × In m (e.exp_tree.items exps) × (m.value ≡ d.id) × (d.expires ≡ some m.key)

  -- Every entry of the first indices is in the second.
  record Grown (rids rids' : e.rid_tree.Tree) (exps exps' : e.exp_tree.Tree) : Type 0 where
    named : (rid did : String) → owner e rids rid ≡ some did → owner e rids' rid ≡ some did
    timed : (m : Map ℕ) → In m (e.exp_tree.items exps) → In m (e.exp_tree.items exps')

  IsCovered-Grown :
      {rids rids' : e.rid_tree.Tree} {exps exps' : e.exp_tree.Tree} (d : Device)
      → Grown rids rids' exps exps'
      → IsCovered rids exps d
      → IsCovered rids' exps' d
  IsCovered-Grown d g x = record {
    named = λ rid has. let (did, there) = x.named rid has in (did, g.named rid did there);
    timed = λ has_ttl. let (m, i, mine, at) = x.timed has_ttl in (m, g.timed m i, mine, at);
  }

  rids-grown :
      (id : String) (d : Device) (t : e.rid_tree.Tree) (rid did : String)
      → owner e t rid ≡ some did
      → owner e (add_rids e id d.resources t) rid ≡ some did
  rids-grown id d t rid did h = ground (arith, owner-add_rids e id d.resources t rid)

  rids-named :
      (id : String) (d : Device) (t : e.rid_tree.Tree) (rid : String)
      → has_id rid d.resources ≡ true
      → (did : String) × (owner e (add_rids e id d.resources t) rid ≡ some did)
  rids-named id d t rid h = elim (Option-cases (owner e t rid)) [
    | inl new ↦ (id, ground (arith, owner-add_rids e id d.resources t rid))
    | inr (did, old) ↦ (did, rids-grown id d t rid did old)
  ]

  times-grown :
      (n : Map ℕ) (t : e.exp_tree.Tree) (m : Map ℕ)
      → In m (e.exp_tree.items t)
      → In m (e.exp_tree.items (e.exp_tree.add n t))
  times-grown n t m i =
      let (before, after, old, new) = e.exp_tree.items-add n t in
      rw new (elim (In-append_cases m before after (rw old at i)) [
        | inl l ↦ In-append_left m before (n ∷ after) l
        | inr r ↦ In-append_right m before (n ∷ after) (inr r)
      ])

  times-added : (n : Map ℕ) (t : e.exp_tree.Tree) → In n (e.exp_tree.items (e.exp_tree.add n t))
  times-added n t =
      let (before, after, old, new) = e.exp_tree.items-add n t in
      rw new (In-append_right n before (n ∷ after) (inl refl))

  -- addIndices of a device keeps what is there and covers the device.
  add_indices-IsCovered :
      (c : Controller e) (d : Device)
      → IsDated d
      → let c' = (add_indices e c d).0 in
        Grown c.rid_did c'.rid_did c.exp_did c'.exp_did × IsCovered c'.rid_did c'.exp_did d
  add_indices-IsCovered c d date = elim (Bool-cases (eqb d.ttl 0)) [
    | inl forever ↦ rw (add_indices_forever e c d forever) (
      record { named = rids-grown d.id d c.rid_did; timed = λ m i. i },
      record { named = rids-named d.id d c.rid_did; timed = λ has_ttl. absurd cc },
    )
    | inr has_ttl ↦
        let (at, expires) = date has_ttl in
        let n : Map ℕ = record { key = at; value = d.id } in
        rw (add_indices_timed e c d at has_ttl expires) (
          record { named = rids-grown d.id d c.rid_did; timed = times-grown n c.exp_did },
          record {
            named = rids-named d.id d c.rid_did;
            timed = λ _. (n, times-added n c.exp_did, refl, expires);
          },
        )
  ]

  -- addIndices of devices, one after the other, where none of them fails.
  pub index_all-IsCovered :
      (ds : List Device) (c : Controller e)
      → ((d : Device) → In d ds → IsDated d)
      → (index_all e ds c).1 ≡ ok tt
      → let c' = (index_all e ds c).0 in
        ((d : Device) → IsCovered c.rid_did c.exp_did d → IsCovered c'.rid_did c'.exp_did d)
        × ((d : Device) → In d ds → IsCovered c'.rid_did c'.exp_did d)
  unfolding index_all
  index_all-IsCovered [] c dates good = (λ d x. x, λ d i. elim i [ ])
  index_all-IsCovered (d ∷ ds) c dates good =
      let c' = (add_indices e c d).0 in
      let (grown, covered) = add_indices-IsCovered c d (dates d (inl refl)) in
      elim (Result-cases (add_indices e c d).1) [
        | inr (x, failed) ↦ let bad : ⊥ = cc (rw (failed, index_all) at good) in absurd bad
        | inl (_, done) ↦
            let good' : (index_all e ds c').1 ≡ ok tt = rw (done, index_all) at good in
            let (later, here) = index_all-IsCovered ds c' (λ d' i. dates d' (inr i)) good' in
            rw (done, index_all)
              (
                λ d' x. later d' (IsCovered-Grown d' grown x),
                λ d' i. elim i [
                  | inl same ↦
                      later d' (
                        subst (λ (y : Device). IsCovered c'.rid_did c'.exp_did y) (sym same)
                          covered)
                  | inr j ↦ here d' j
                ],
              )
      ]
