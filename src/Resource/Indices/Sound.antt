-- ===== src/Resource/Indices/Sound.antt =====
-- The secondary indices against the stored devices.
use mathlib.Core.Path.{fun_ext}
use lslc_core.Common.{
  ℕ, String, true, false, not, ◌≡◌, refl, ap, sym, ◌∙◌, subst, ◌∷◌, Option, none, some,
  if◌then◌else◌, ◌==◌, eq_iff, arith, Option-cases, Bool-cases, inl, inr, In, eqb, In-keep,
  In-append_left, In-append_right, In-append_cases, find_first_passes, find_first-none, ok,
}
use lslc_core.Tree.Nodes.{Map}
use lslc_core.Resource.{Device}
use lslc_core.Resource.State.{Env, Controller, add_rids, remove_rids, remove_expiry, add_indices}
use lslc_core.Resource.Sorting.{has_id}
use lslc_core.Resource.Indices.Rids.{owner, owner-add_rids, owner-remove_rids}
use lslc_core.Resource.Indices.Expiry.{node_of, items-remove_expiry, items-remove_expiry-none}

-- The stored devices, by their ids.
abbrev pub View : Type 0
View = String → Option Device

abbrev pub without : String → View → View
without id v j = if id == j then none else v j

abbrev pub with_device : String → Device → View → View
with_device id d v j = if id == j then some d else v j

-- A device with a TTL has an expiry time.
abbrev pub IsDated : Device → Type 0
IsDated d = eqb d.ttl 0 ≡ false → (at : ℕ) × (d.expires ≡ some at)

module _ (e : Env) where
  -- Every entry of an index is about a stored device: a resource id leads to a device that has
  -- that resource, and a node of the expiry index to a device with a TTL that expires then.
  pub record Indexed (v : View) (rids : e.rid_tree.Tree) (exps : e.exp_tree.Tree) : Type 0 where
    pub keyed : (id : String) (d : Device) → v id ≡ some d → d.id ≡ id
    pub dated : (id : String) (d : Device) → v id ≡ some d → IsDated d
    pub owned :
        (rid did : String)
        → owner e rids rid ≡ some did
        → (d : Device) × (v did ≡ some d) × (has_id rid d.resources ≡ true)
    pub timed :
        (m : Map ℕ)
        → In m (e.exp_tree.items exps)
        → (d : Device) × (v m.value ≡ some d) × (d.expires ≡ some m.key) × (eqb d.ttl 0 ≡ false)

  pub Indexed-view :
      {v w : View} {rids : e.rid_tree.Tree} {exps : e.exp_tree.Tree}
      → ((j : String) → w j ≡ v j)
      → Indexed v rids exps
      → Indexed w rids exps
  Indexed-view {rids} {exps} h x = subst (λ u. Indexed u rids exps) (sym (fun_ext h)) x

  module _ {v : View} {rids : e.rid_tree.Tree} {exps : e.exp_tree.Tree}
      (x : Indexed v rids exps) where
    -- A node of a stored device has its expiry time.
    time_of :
        (id : String) (d : Device) (m : Map ℕ)
        → v id ≡ some d
        → In m (e.exp_tree.items exps)
        → m.value ≡ id
        → (d.expires ≡ some m.key) × (eqb d.ttl 0 ≡ false)
    time_of id d m stored i same =
        let (d', there, at, has_ttl) = x.timed m i in
        let one : d' ≡ d = cc (ap v same) in
        subst (λ (y : Device). (y.expires ≡ some m.key) × (eqb y.ttl 0 ≡ false)) one (at, has_ttl)

    gone_timed :
        (id : String) (d : Device) (m : Map ℕ)
        → v id ≡ some d
        → In m (e.exp_tree.items (remove_expiry e id exps))
        → In m (e.exp_tree.items exps) × ((id == m.value) ≡ false)
    gone_timed id d m stored i = elim (Option-cases (node_of e id exps)) [
      | inl missing ↦
          let j : In m (e.exp_tree.items exps) =
            rw (items-remove_expiry-none e id exps missing) at i in
          let differs : (m.value == id) ≡ false =
            find_first-none (λ (y : Map ℕ). y.value == id) (e.exp_tree.items exps) m missing j in
          (j, ground (arith, eq_iff id m.value, eq_iff m.value id))
      | inr (n, found) ↦
          let (hit, there) =
            find_first_passes (λ (y : Map ℕ). y.value == id) (e.exp_tree.items exps) n found in
          let (j, other) =
            In-keep (λ (y : Map ℕ). not (eqb n.key y.key)) (e.exp_tree.items exps) m
              (rw (items-remove_expiry e id exps n found) at i) in
          let (at, _) = time_of id d n stored there ((eq_iff n.value id).0 hit) in
          (
            j,
            elim (Bool-cases (id == m.value)) [
              | inr differs ↦ differs
              | inl same ↦
                  let (at', _) = time_of id d m stored j (sym ((eq_iff id m.value).0 same)) in
                  let tie : n.key ≡ m.key = cc in ground arith
            ],
          )
    ]

    -- After removeIndices no node of the expiry index is of the device.
    pub gone :
        (id : String) (d : Device) (m : Map ℕ)
        → v id ≡ some d
        → In m (e.exp_tree.items (if eqb d.ttl 0 then exps else remove_expiry e id exps))
        → In m (e.exp_tree.items exps) × ((id == m.value) ≡ false)
    gone id d m stored i = elim (Bool-cases (eqb d.ttl 0)) [
      | inr timed ↦ gone_timed id d m stored (rw timed at i)
      | inl forever ↦
          let j : In m (e.exp_tree.items exps) = rw forever at i in
          (
            j,
            elim (Bool-cases (id == m.value)) [
              | inr differs ↦ differs
              | inl same ↦
                  let (_, has_ttl) = time_of id d m stored j (sym ((eq_iff id m.value).0 same)) in
                  cc
            ],
          )
    ]

    pub Indexed-remove :
        (id : String) (d : Device)
        → v id ≡ some d
        → Indexed
            (without id v)
            (remove_rids e d.resources rids)
            (if eqb d.ttl 0 then exps else remove_expiry e id exps)
    Indexed-remove id d stored = record {
      keyed = λ j d' h. x.keyed j d' (ground arith);
      dated = λ j d' h. x.dated j d' (ground arith);
      owned = λ rid did h.
          let kept : owner e rids rid ≡ some did =
            ground (arith, owner-remove_rids e d.resources rids rid) in
          let lost : has_id rid d.resources ≡ false =
            ground (arith, owner-remove_rids e d.resources rids rid) in
          let (d', there, has) = x.owned rid did kept in
          elim (Bool-cases (id == did)) [
            | inr differs ↦ (d', rw differs there, has)
            | inl same ↦
                let one : d' ≡ d = cc (ap v ((eq_iff id did).0 same)) in
                let bad : ⊥ = cc (subst (λ (y : Device). has_id rid y.resources ≡ true) one has) in
                absurd bad
          ];
      timed = λ m i.
          let (j, differs) = gone id d m stored i in
          let (d', there, at, has_ttl) = x.timed m j in (d', rw differs there, at, has_ttl);
    }

    still :
        (id did : String) (d d' : Device)
        → v id ≡ none
        → v did ≡ some d'
        → with_device id d v did ≡ some d'
    still id did d d' new there = ground (arith, eq_iff id did, λ (p : id ≡ did). ap v p)

    -- A new device can be added to the view.
    pub Indexed-extend :
        (id : String) (d : Device)
        → v id ≡ none
        → d.id ≡ id
        → IsDated d
        → Indexed (with_device id d v) rids exps
    Indexed-extend id d new same date = record {
      keyed = λ j d' h. elim (Bool-cases (id == j)) [
        | inl here ↦
            let one : d ≡ d' = cc (rw here at h) in
            subst (λ (y : Device). y.id ≡ j) one (same ∙ (eq_iff id j).0 here)
        | inr there ↦ x.keyed j d' (rw there at h)
      ];
      dated = λ j d' h. elim (Bool-cases (id == j)) [
        | inl here ↦
            let one : d ≡ d' = cc (rw here at h) in subst (λ (y : Device). IsDated y) one date
        | inr there ↦ x.dated j d' (rw there at h)
      ];
      owned = λ rid did h.
          let (d', there, has) = x.owned rid did h in (d', still id did d d' new there, has);
      timed = λ m i.
          let (d', there, at, has_ttl) = x.timed m i in
          (d', still id m.value d d' new there, at, has_ttl);
    }

    -- The resources of a stored device can be added to the index.
    pub Indexed-fill :
        (id : String) (d : Device) → v id ≡ some d → Indexed v (add_rids e id d.resources rids) exps
    Indexed-fill id d stored = record {
      keyed = x.keyed;
      dated = x.dated;
      owned = λ rid did h. elim (Option-cases (owner e rids rid)) [
        | inl unowned ↦
            let added = owner-add_rids e id d.resources rids rid in
            let mine : has_id rid d.resources ≡ true = ground arith in
            let one : id ≡ did = ground arith in (d, ap v (sym one) ∙ stored, mine)
        | inr (o, owned) ↦
            let one : o ≡ did = ground (arith, owner-add_rids e id d.resources rids rid) in
            x.owned rid did (owned ∙ ap some one)
      ];
      timed = x.timed;
    }

  Indexed-time :
      {v : View} {rids : e.rid_tree.Tree} {exps : e.exp_tree.Tree} (id : String) (d : Device)
      (at : ℕ)
      → Indexed v rids exps
      → v id ≡ some d
      → d.expires ≡ some at
      → eqb d.ttl 0 ≡ false
      → Indexed v rids (e.exp_tree.add (record { key = at; value = id }) exps)
  Indexed-time {v} {exps} id d at x there expires has_ttl =
      let n : Map ℕ = record { key = at; value = id } in
      let (before, after, old, new) = e.exp_tree.items-add n exps in
      record {
        keyed = x.keyed;
        dated = x.dated;
        owned = x.owned;
        timed = λ m i. elim (In-append_cases m before (n ∷ after) (rw new at i)) [
          | inl l ↦ x.timed m (rw old (In-append_left m before after l))
          | inr (inr r) ↦ x.timed m (rw old (In-append_right m before after r))
          | inr (inl same) ↦
              subst
                (λ (y : Map ℕ).
                  (d' : Device) × (v y.value ≡ some d')
                  × (d'.expires ≡ some y.key)
                  × (eqb d'.ttl 0 ≡ false))
                (sym same) (d, there, expires, has_ttl)
        ];
      }

  abbrev pub view : Controller e → View
  view c = e.storage.view c.storage

  -- The invariant of the controller.
  abbrev pub IsIndexed : Controller e → Type 0
  IsIndexed c = Indexed (view c) c.rid_did c.exp_did

  pub add_indices_forever :
      (c : Controller e) (d : Device)
      → eqb d.ttl 0 ≡ true
      → add_indices e c d ≡ (record c { rid_did = add_rids e d.id d.resources c.rid_did }, ok tt)
  unfolding add_indices
  add_indices_forever c d h = rw h

  pub add_indices_timed :
      (c : Controller e) (d : Device) (at : ℕ)
      → eqb d.ttl 0 ≡ false
      → d.expires ≡ some at
      → add_indices e c d ≡ (
        record c {
          rid_did = add_rids e d.id d.resources c.rid_did;
          exp_did = e.exp_tree.add (record { key = at; value = d.id }) c.exp_did;
        },
        ok tt,
      )
  unfolding add_indices
  add_indices_timed c d at h k = rw (h, k)

  -- addIndices of a stored device succeeds and keeps the indices sound.
  pub add_indices-Indexed :
      {v : View} (c : Controller e) (d : Device)
      → Indexed v c.rid_did c.exp_did
      → v d.id ≡ some d
      → let (c', r) = add_indices e c d in
        (r ≡ ok tt) × (c'.storage ≡ c.storage) × Indexed v c'.rid_did c'.exp_did
  add_indices-Indexed {v} c d x stored =
      let y = Indexed-fill x d.id d stored in
      elim (Bool-cases (eqb d.ttl 0)) [
        | inl forever ↦ rw (add_indices_forever c d forever) (refl, refl, y)
        | inr timed ↦
            let (at, expires) = x.dated d.id d stored timed in
            rw (add_indices_timed c d at timed expires)
              (refl, refl, Indexed-time d.id d at y stored expires timed)
      ]
