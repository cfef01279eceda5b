-- ===== src/Service/Expiry/Sound.antt =====
-- The expiry index of the service catalog against the stored services.
use lslc_core.Common.{
  ℕ, String, false, not, ◌≡◌, ap, sym, ◌∙◌, subst, ◌∷◌, Option, some, if◌then◌else◌, ◌==◌, eq_iff,
  arith, Option-cases, Bool-cases, inl, inr, In, eqb, In-keep, In-append_left, In-append_right,
  In-append_cases, find_first_passes, find_first-none,
}
use lslc_core.Tree.Nodes.{Map}
use lslc_core.Service.{Service, is_zero_ttl}
use lslc_core.Service.Controller.{Env, Controller, remove_expiry}
use lslc_core.Service.Controller.Outcomes.{view}
use lslc_core.Service.Expiry.{node_of, items-remove_expiry, items-remove_expiry-none}

abbrev View : Type 0
View = String → Option Service

module _ (e : Env) where
  -- Every node of the index is of a stored service with a TTL that expires then.
  abbrev pub Timed : View → e.exp_tree.Tree → Type 0
  Timed v t =
      (m : Map ℕ)
      → In m (e.exp_tree.items t)
      → (s : Service) × (v m.value ≡ some s)
        × (s.expires ≡ some m.key)
        × (is_zero_ttl s.ttl ≡ false)

  abbrev pub IsTimed : Controller e → Type 0
  IsTimed c = Timed (view e c) c.exp_sid

  -- The services off one id stay, and no node of that id is left.
  pub Timed-away :
      (v w : View) (t t' : e.exp_tree.Tree) (id : String)
      → ((m : Map ℕ)
          → In m (e.exp_tree.items t')
          → In m (e.exp_tree.items t) × ((id == m.value) ≡ false))
      → ((j : String) → (id == j) ≡ false → w j ≡ v j)
      → Timed v t
      → Timed w t'
  Timed-away v w t t' id nodes views x m i =
      let (j, differs) = nodes m i in
      let (s, there, at, has_ttl) = x m j in (s, views m.value differs ∙ there, at, has_ttl)

  pub Timed-node :
      (w : View) (t : e.exp_tree.Tree) (s : Service) (at : ℕ)
      → Timed w t
      → w s.id ≡ some s
      → s.expires ≡ some at
      → is_zero_ttl s.ttl ≡ false
      → Timed w (e.exp_tree.add (record { key = at; value = s.id }) t)
  Timed-node w t s at x there expires has_ttl m i =
      let n : Map ℕ = record { key = at; value = s.id } in
      let (before, after, old, new) = e.exp_tree.items-add n t in
      elim (In-append_cases m before (n ∷ after) (rw new at i)) [
        | inl l ↦ x m (rw old (In-append_left m before after l))
        | inr (inr r) ↦ x m (rw old (In-append_right m before after r))
        | inr (inl same) ↦
            subst
              (λ (y : Map ℕ).
                (s' : Service) × (w y.value ≡ some s')
                × (s'.expires ≡ some y.key)
                × (is_zero_ttl s'.ttl ≡ false))
              (sym same) (s, there, expires, has_ttl)
      ]

  -- A node of a stored service has its expiry time.
  time_of :
      (v : View) (t : e.exp_tree.Tree) (id : String) (s : Service) (m : Map ℕ)
      → Timed v t
      → v id ≡ some s
      → In m (e.exp_tree.items t)
      → m.value ≡ id
      → (s.expires ≡ some m.key) × (is_zero_ttl s.ttl ≡ false)
  time_of v t id s m x stored i same =
      let (s', there, at, has_ttl) = x m i in
      let one : s' ≡ s = cc (ap v same) in
      subst (λ (y : Service). (y.expires ≡ some m.key) × (is_zero_ttl y.ttl ≡ false)) one
        (at, has_ttl)

  gone-Timed :
      (v : View) (t : e.exp_tree.Tree) (id : String) (s : Service) (m : Map ℕ)
      → Timed v t
      → v id ≡ some s
      → In m (e.exp_tree.items (remove_expiry e id t))
      → In m (e.exp_tree.items t) × ((id == m.value) ≡ false)
  gone-Timed v t id s m x stored i = elim (Option-cases (node_of e id t)) [
    | inl missing ↦
        let j : In m (e.exp_tree.items t) = rw (items-remove_expiry-none e id t missing) at i in
        let differs : (m.value == id) ≡ false =
          find_first-none (λ (y : Map ℕ). y.value == id) (e.exp_tree.items t) m missing j in
        (j, ground (arith, eq_iff id m.value, eq_iff m.value id))
    | inr (n, found) ↦
        let (hit, there) =
          find_first_passes (λ (y : Map ℕ). y.value == id) (e.exp_tree.items t) n found in
        let (j, other) =
          In-keep (λ (y : Map ℕ). not (eqb n.key y.key)) (e.exp_tree.items t) m
            (rw (items-remove_expiry e id t n found) at i) in
        let (at, _) = time_of v t id s n x stored there ((eq_iff n.value id).0 hit) in
        (
          j,
          elim (Bool-cases (id == m.value)) [
            | inr differs ↦ differs
            | inl same ↦
                let (at', _) = time_of v t id s m x stored j (sym ((eq_iff id m.value).0 same)) in
                let tie : n.key ≡ m.key = cc in ground arith
          ],
        )
  ]

  -- After removeIndices no node is of the service.
  pub gone :
      (v : View) (t : e.exp_tree.Tree) (id : String) (s : Service)
      → Timed v t
      → v id ≡ some s
      → (m : Map ℕ)
      → In m (e.exp_tree.items (if is_zero_ttl s.ttl then t else remove_expiry e id t))
      → In m (e.exp_tree.items t) × ((id == m.value) ≡ false)
  gone v t id s x stored m i = elim (Bool-cases (is_zero_ttl s.ttl)) [
    | inr timed ↦ gone-Timed v t id s m x stored (rw timed at i)
    | inl forever ↦
        let j : In m (e.exp_tree.items t) = rw forever at i in
        (
          j,
          elim (Bool-cases (id == m.value)) [
            | inr differs ↦ differs
            | inl same ↦
                let (_, has_ttl) =
                  time_of v t id s m x stored j (sym ((eq_iff id m.value).0 same)) in
                cc
          ],
        )
  ]

  pub Timed-view :
      (v w : View) (t : e.exp_tree.Tree) → ((j : String) → w j ≡ v j) → Timed v t → Timed w t
  Timed-view v w t same x m i =
      let (s, there, at, has_ttl) = x m i in (s, same m.value ∙ there, at, has_ttl)
