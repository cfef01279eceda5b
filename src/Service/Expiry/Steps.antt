-- ===== src/Service/Expiry/Steps.antt =====
-- The calls of the controller of the service catalog keep its expiry index sound.
use lslc_core.Common.{
  ℕ, String, false, ◌≡◌, refl, ap, sym, ◌∙◌, Option, none, some, if◌then◌else◌, ◌==◌, eq_iff,
  eq_refl, Bool-cases, Result-cases, Result, ok, err, inl, inr, In,
}
use lslc_core.Common.Words.{add_seconds}
use lslc_core.Tree.Nodes.{Map}
use lslc_core.Resource.{CatalogError}
use lslc_core.Service.{Service, is_zero_ttl, validate}
use lslc_core.Service.Controller.{
  Env, Controller, Notice, added, updated, expiry, seconds_word, announce, notify, add_indices,
  remove_indices, store_new, store_update, refresh, stamp, service_id, new_urn, add, update, remove,
  tell, delete,
}
use lslc_core.Service.Controller.Outcomes.{view, IsKeyed, forever_lem, timed_lem}
use lslc_core.Service.Expiry.Sound.{IsTimed, Timed-away, Timed-node, Timed-view, gone}

module _ (e : Env) where
  -- After addIndices of a stored service and the listeners.
  announce-IsTimed :
      (c : Controller e) (s : Service) (now : ℕ) (n : Notice)
      → IsTimed e c
      → view e c s.id ≡ some s
      → s.expires ≡ expiry now s.ttl
      → IsTimed e (announce e n (add_indices e c s)).0
  unfolding announce notify expiry
  announce-IsTimed c s now n x there date = elim (Bool-cases (is_zero_ttl s.ttl)) [
    | inl forever ↦ rw (forever_lem e c s forever) x
    | inr timed ↦
        let at = add_seconds now (seconds_word s.ttl) in
        let expires : s.expires ≡ some at = date ∙ rw timed refl in
        rw (timed_lem e c s at timed expires)
          (Timed-node e (view e c) c.exp_sid s at x there expires timed)
  ]

  -- A node of a sound index is of a stored service.
  no_node :
      (c : Controller e) (id : String) (m : Map ℕ)
      → IsTimed e c
      → view e c id ≡ none
      → In m (e.exp_tree.items c.exp_sid)
      → (id == m.value) ≡ false
  no_node c id m x free i = elim (Bool-cases (id == m.value)) [
    | inr differs ↦ differs
    | inl same ↦
        let (s, there, _, _) = x m i in
        let bad : ⊥ = cc (ap (view e c) ((eq_iff id m.value).0 same)) in absurd bad
  ]

  store_new-IsTimed :
      (c : Controller e) (s : Service) (now : ℕ)
      → s.expires ≡ expiry now s.ttl
      → IsTimed e c
      → IsTimed e (store_new e c s).0
  unfolding store_new
  store_new-IsTimed c s now date x = elim (Result-cases (e.storage.add s c.storage).1) [
    | inr (y, failed) ↦
        rw (failed, store_new)
          (Timed-view e (view e c) _ c.exp_sid (e.storage.add_err s c.storage y failed) x)
    | inl (_, done) ↦
        let c' : Controller e = record c { storage = (e.storage.add s c.storage).0 } in
        let (free, views) = e.storage.add_ok s c.storage done in
        let x' : IsTimed e c' =
          Timed-away e (view e c) (view e c') c.exp_sid c.exp_sid s.id
            (λ m i. (i, no_node c s.id m x free i))
            (λ j differs. views j ∙ ap (λ b. if b then some s else view e c j) differs) x in
        rw (done, store_new)
          (announce-IsTimed c' s now (added s) x'
            (views s.id ∙ ap (λ b. if b then some s else view e c s.id) (eq_refl s.id)) date)
  ]

  pub add-IsTimed :
      (c : Controller e) (now : ℕ) (s : Service) → IsTimed e c → IsTimed e (add e c now s).0
  unfolding add service_id new_urn
  add-IsTimed c now s x = elim (Result-cases (validate s)) [
    | inr (m, invalid) ↦ rw (invalid, add) x
    | inl (_, valid) ↦ elim (Bool-cases (s.id == "")) [
      | inl fresh ↦
          let (c', id) = new_urn e c in
          rw (valid, fresh, add, service_id)
            (store_new-IsTimed c' (stamp e c' now id s) now (unfold stamp in refl) x)
      | inr own ↦
          rw (valid, own, add, service_id)
            (store_new-IsTimed c (stamp e c now s.id s) now (unfold stamp in refl) x)
    ]
  ]

  -- The service with an id is gone or replaced, and its nodes are removed.
  removed-IsTimed :
      (c c' : Controller e) (id : String) (old : Service) (o : Option Service)
      → view e c id ≡ some old
      → old.id ≡ id
      → c'.exp_sid ≡ c.exp_sid
      → ((j : String) → view e c' j ≡ (if id == j then o else view e c j))
      → IsTimed e c
      → IsTimed e (remove_indices e c' old)
  unfolding remove_indices
  removed-IsTimed c c' id old o was same kept views x =
      let there : view e c old.id ≡ some old = ap (view e c) same ∙ was in
      Timed-away e (view e c) (view e c') c.exp_sid _ old.id
        (λ m i. gone e (view e c) c.exp_sid old.id old x there m (rw kept at i))
        (λ j differs.
          views j ∙ ap (λ b. if b then o else view e c j) (ap (λ k. k == j) (sym same) ∙ differs))
        x

  store_update-IsTimed :
      (c : Controller e) (id : String) (old new s : Service) (now : ℕ)
      → view e c id ≡ some old
      → old.id ≡ id
      → new.id ≡ id
      → new.expires ≡ expiry now new.ttl
      → IsTimed e c
      → IsTimed e (store_update e c id old new s).0
  unfolding store_update
  store_update-IsTimed c id old new s now was same own date x =
      elim (Result-cases (e.storage.update id new c.storage).1) [
        | inr (y, failed) ↦
            rw (failed, store_update)
              (Timed-view e (view e c) _ c.exp_sid (e.storage.update_err id new c.storage y failed)
                x)
        | inl (_, done) ↦
            let c' : Controller e = record c { storage = (e.storage.update id new c.storage).0 } in
            let views = e.storage.update_ok id new old c.storage was own done in
            let x' = removed-IsTimed c c' id old (some new) was same refl views x in
            let c'' = remove_indices e c' old in
            let there : view e c'' new.id ≡ some new =
              unfold remove_indices in
              (views new.id
                ∙ ap (λ b. if b then some new else view e c new.id)
                    ((eq_iff id new.id).1 (sym own))) in
            rw (done, store_update) (announce-IsTimed c'' new now (updated s) x' there date)
      ]

  pub update-IsTimed :
      (c : Controller e) (now : ℕ) (id : String) (s : Service)
      → IsKeyed e c
      → IsTimed e c
      → IsTimed e (update e c now id s).0
  unfolding update
  update-IsTimed c now id s keyed x = elim (Result-cases (validate s)) [
    | inr (m, invalid) ↦ rw (invalid, update) x
    | inl (_, valid) ↦ elim (Result-cases (e.storage.get id c.storage)) [
      | inr (y, missing) ↦ rw (valid, missing, update) x
      | inl (old, found) ↦
          let was = e.storage.get_ok id c.storage old found in
          let same = keyed id old was in
          rw (valid, found, update)
            (store_update-IsTimed c id old (refresh e now old s) s now was same
              (unfold refresh in same) (unfold refresh in refl) x)
    ]
  ]

  pub remove-IsTimed :
      (c : Controller e) (id : String) → IsKeyed e c → IsTimed e c → IsTimed e (remove e c id).0
  unfolding remove
  remove-IsTimed c id keyed x = elim (Result-cases (e.storage.get id c.storage)) [
    | inr (y, missing) ↦ rw (missing, remove) x
    | inl (old, found) ↦ elim (Result-cases (e.storage.delete id c.storage).1) [
      | inr (y, failed) ↦
          rw (found, failed, remove)
            (Timed-view e (view e c) _ c.exp_sid (e.storage.delete_err id c.storage y failed) x)
      | inl (_, done) ↦
          let c' : Controller e = record c { storage = (e.storage.delete id c.storage).0 } in
          let was = e.storage.get_ok id c.storage old found in
          rw (found, done, remove)
            (removed-IsTimed c c' id old none was (keyed id old was) refl
              (e.storage.delete_ok id c.storage done) x)
    ]
  ]

  tell-IsTimed :
      (p : Controller e × Result CatalogError Service) → IsTimed e p.0 → IsTimed e (tell e p).0
  unfolding tell notify
  tell-IsTimed (c, ok old) x = x
  tell-IsTimed (c, err y) x = x

  pub delete-IsTimed :
      (c : Controller e) (id : String) → IsKeyed e c → IsTimed e c → IsTimed e (delete e c id).0
  unfolding delete
  delete-IsTimed c id keyed x = tell-IsTimed (remove e c id) (remove-IsTimed c id keyed x)
