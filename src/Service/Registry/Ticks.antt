-- ===== src/Service/Registry/Ticks.antt =====
-- What a tick of cleanExpired removes.
use lslc_core.Common.{
  ℕ, ◌≤◌, String, ◌≡◌, refl, sym, ap, ◌∙◌, ◌⊎◌, inl, inr, List, [], ◌∷◌, Option, none, some, ◌==◌,
  if◌then◌else◌, eq_iff, Bool-cases, Result-cases, In, leb, leb→le,
}
use lslc_core.Tree.Nodes.{Map}
use lslc_core.Service.{Service}
use lslc_core.Service.Controller.{
  Env, Controller, remove, remove_indices, expire_all, expired_list, clean_expired,
}
use lslc_core.Service.Controller.Outcomes.{view, IsKeyed}
use lslc_core.Service.Expiry.Sound.{IsTimed}
use lslc_core.Service.Expiry.Steps.{remove-IsTimed}
use lslc_core.Service.Registry.{IsDue}

-- The nodes of the first loop have expired.
In-expired_list :
    (now : ℕ) (l : List (Map ℕ)) (m : Map ℕ) → In m (expired_list now l) → In m l × (m.key ≤ now)
unfolding expired_list
In-expired_list now [] m i = elim i [ ]
In-expired_list now (x ∷ l) m i = elim (Bool-cases (leb x.key now)) [
  | inr late ↦ let none_left : In m [] = rw late at i in elim none_left [ ]
  | inl past ↦ elim (rw past at i) [
    | inl same ↦ (inl same, rw (ap (λ (y : Map ℕ). y.key) same) (leb→le x.key now past))
    | inr later ↦ let (there, due) = In-expired_list now l m later in (inr there, due)
  ]
]

module _ (e : Env) where
  remove_or_keep :
      (c : Controller e) (id j : String)
      → (view e (remove e c id).0 j ≡ view e c j) ⊎ ((id ≡ j) × (view e (remove e c id).0 j ≡ none))
  unfolding remove remove_indices
  remove_or_keep c id j = elim (Result-cases (e.storage.get id c.storage)) [
    | inr (x, missing) ↦ rw (missing, remove) (inl refl)
    | inl (old, found) ↦ elim (Result-cases (e.storage.delete id c.storage).1) [
      | inr (x, failed) ↦
          rw (found, failed, remove) (inl (e.storage.delete_err id c.storage x failed j))
      | inl (_, done) ↦
          let views = e.storage.delete_ok id c.storage done j in
          rw (found, done, remove)
            (elim (Bool-cases (id == j)) [
              | inl hit ↦
                  inr ((eq_iff id j).0 hit, views ∙ ap (λ b. if b then none else view e c j) hit)
              | inr miss ↦ inl (views ∙ ap (λ b. if b then none else view e c j) miss)
            ])
    ]
  ]

  remove-IsKeyed : (c : Controller e) (id : String) → IsKeyed e c → IsKeyed e (remove e c id).0
  remove-IsKeyed c id keyed j s there = elim (remove_or_keep c id j) [
    | inl same ↦ keyed j s (sym same ∙ there)
    | inr (_, gone) ↦
        let bad : ◌≡◌ {A = Option Service} none (some s) = sym gone ∙ there in absurd cc
  ]

  -- A loop of removals takes out services of its nodes, and no other.
  expire_or_keep :
      (c : Controller e) (ms : List (Map ℕ)) (j : String)
      → (view e (expire_all e c ms) j ≡ view e c j)
        ⊎ ((m : Map ℕ) × In m ms × (m.value ≡ j) × (view e (expire_all e c ms) j ≡ none))
  unfolding expire_all
  expire_or_keep c [] j = inl refl
  expire_or_keep c (m ∷ ms) j = elim (Result-cases (remove e c m.value).1) [
    | inr (x, failed) ↦
        rw (failed, expire_all)
          (elim (remove_or_keep c m.value j) [
            | inl same ↦ inl same
            | inr (mine, gone) ↦ inr (m, inl refl, mine, gone)
          ])
    | inl (_, done) ↦
        rw (done, expire_all)
          (elim (expire_or_keep (remove e c m.value).0 ms j) [
            | inr (n, i, mine, gone) ↦ inr (n, inr i, mine, gone)
            | inl kept ↦ elim (remove_or_keep c m.value j) [
              | inl same ↦ inl (kept ∙ same)
              | inr (mine, gone) ↦ inr (m, inl refl, mine, kept ∙ gone)
            ]
          ])
  ]

  expire_all-IsTimed :
      (c : Controller e) (ms : List (Map ℕ))
      → IsKeyed e c
      → IsTimed e c
      → IsTimed e (expire_all e c ms)
  unfolding expire_all
  expire_all-IsTimed c [] keyed x = x
  expire_all-IsTimed c (m ∷ ms) keyed x = elim (Result-cases (remove e c m.value).1) [
    | inr (y, failed) ↦ rw (failed, expire_all) (remove-IsTimed e c m.value keyed x)
    | inl (_, done) ↦
        rw (done, expire_all)
          (expire_all-IsTimed (remove e c m.value).0 ms (remove-IsKeyed c m.value keyed)
            (remove-IsTimed e c m.value keyed x))
  ]

  pub clean_expired-IsTimed :
      (c : Controller e) (now : ℕ) → IsKeyed e c → IsTimed e c → IsTimed e (clean_expired e c now)
  unfolding clean_expired
  clean_expired-IsTimed c now keyed x = expire_all-IsTimed c _ keyed x

  -- A tick removes services that are due, and no other.
  pub clean_expired-IsDue :
      (c : Controller e) (now : ℕ) (j : String)
      → IsTimed e c
      → (view e (clean_expired e c now) j ≡ view e c j)
        ⊎ ((s : Service) × (view e c j ≡ some s)
            × IsDue now s
            × (view e (clean_expired e c now) j ≡ none))
  unfolding clean_expired
  clean_expired-IsDue c now j x =
      let nodes = e.exp_tree.items c.exp_sid in
      elim (expire_or_keep c (expired_list now nodes) j) [
        | inl kept ↦ inl kept
        | inr (m, i, mine, gone) ↦
            let (there, past) = In-expired_list now nodes m i in
            let (s, stored, expires, timed) = x m there in
            inr (
              s,
              ap (view e c) (sym mine) ∙ stored,
              record { timed = timed; at = m.key; expires = expires; past = past },
              gone,
            )
      ]
