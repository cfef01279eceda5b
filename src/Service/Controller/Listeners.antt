-- ===== src/Service/Controller/Listeners.antt =====
-- The listeners of a controller stay as they were at its start.
use lslc_core.Common.{
  ℕ, String, ◌≡◌, refl, ◌∙◌, List, [], ◌∷◌, Result, ok, err, ◌==◌, Bool-cases, Option-cases,
  Result-cases, inl, inr,
}
use lslc_core.Tree.Nodes.{Map}
use lslc_core.Resource.{CatalogError}
use lslc_core.Service.{Service, validate, is_zero_ttl}
use lslc_core.Service.Controller.{
  Env, Controller, Notice, notify, add_indices, remove_indices, announce, service_id, new_urn,
  store_new, add, store_update, update, remove, tell, delete, expire_all, clean_expired,
}

module _ (e : Env) where
  listeners-announce :
      (n : Notice) (p : Controller e × Result CatalogError (Unit {0}))
      → (announce e n p).0.listeners ≡ p.0.listeners
  unfolding announce notify
  listeners-announce n (c, ok _) = refl
  listeners-announce n (c, err x) = refl

  listeners-add_indices :
      (c : Controller e) (s : Service) → (add_indices e c s).0.listeners ≡ c.listeners
  unfolding add_indices
  listeners-add_indices c s = elim (Bool-cases (is_zero_ttl s.ttl)) [
    | inl forever ↦ rw (forever, add_indices) refl
    | inr timed ↦
        rw (timed, add_indices)
          (elim (Option-cases s.expires) [
            | inl never ↦ rw (never, add_indices) refl
            | inr (at, date) ↦ rw (date, add_indices) refl
          ])
  ]

  listeners-store_new :
      (c : Controller e) (s : Service) → (store_new e c s).0.listeners ≡ c.listeners
  unfolding store_new
  listeners-store_new c s = elim (Result-cases (e.storage.add s c.storage).1) [
    | inr (x, failed) ↦ rw (failed, store_new) refl
    | inl (_, good) ↦
        let c' : Controller e = record c { storage = (e.storage.add s c.storage).0 } in
        rw (good, store_new)
          (listeners-announce _ (add_indices e c' s) ∙ listeners-add_indices c' s)
  ]

  pub listeners-add :
      (c : Controller e) (now : ℕ) (s : Service) → (add e c now s).0.listeners ≡ c.listeners
  unfolding add service_id new_urn
  listeners-add c now s = elim (Result-cases (validate s)) [
    | inr (m, invalid) ↦ rw (invalid, add) refl
    | inl (_, valid) ↦
        rw (valid, add)
          (elim (Bool-cases (s.id == "")) [
            | inl fresh ↦ rw (fresh, add, service_id) (listeners-store_new _ _)
            | inr own ↦ rw (own, add, service_id) (listeners-store_new _ _)
          ])
  ]

  listeners-store_update :
      (c : Controller e) (id : String) (old new s : Service)
      → (store_update e c id old new s).0.listeners ≡ c.listeners
  unfolding store_update remove_indices
  listeners-store_update c id old new s =
      elim (Result-cases (e.storage.update id new c.storage).1) [
        | inr (x, failed) ↦ rw (failed, store_update) refl
        | inl (_, good) ↦
            rw (good, store_update) (listeners-announce _ _ ∙ listeners-add_indices _ new)
      ]

  pub listeners-update :
      (c : Controller e) (now : ℕ) (id : String) (s : Service)
      → (update e c now id s).0.listeners ≡ c.listeners
  unfolding update
  listeners-update c now id s = elim (Result-cases (validate s)) [
    | inr (m, invalid) ↦ rw (invalid, update) refl
    | inl (_, valid) ↦
        rw (valid, update)
          (elim (Result-cases (e.storage.get id c.storage)) [
            | inr (x, missing) ↦ rw (missing, update) refl
            | inl (old, found) ↦ rw (found, update) (listeners-store_update c id old _ s)
          ])
  ]

  pub listeners-remove :
      (c : Controller e) (id : String) → (remove e c id).0.listeners ≡ c.listeners
  unfolding remove remove_indices
  listeners-remove c id = elim (Result-cases (e.storage.get id c.storage)) [
    | inr (x, missing) ↦ rw (missing, remove) refl
    | inl (old, found) ↦
        rw (found, remove)
          (elim (Result-cases (e.storage.delete id c.storage).1) [
            | inr (x, failed) ↦ rw (failed, remove) refl
            | inl (_, done) ↦ rw (done, remove) refl
          ])
  ]

  listeners-tell :
      (p : Controller e × Result CatalogError Service) → (tell e p).0.listeners ≡ p.0.listeners
  unfolding tell notify
  listeners-tell (c, ok old) = refl
  listeners-tell (c, err x) = refl

  pub listeners-delete :
      (c : Controller e) (id : String) → (delete e c id).0.listeners ≡ c.listeners
  unfolding delete
  listeners-delete c id = listeners-tell (remove e c id) ∙ listeners-remove c id

  listeners-expire_all :
      (c : Controller e) (ms : List (Map ℕ)) → (expire_all e c ms).listeners ≡ c.listeners
  unfolding expire_all
  listeners-expire_all c [] = refl
  listeners-expire_all c (m ∷ ms) = elim (Result-cases (remove e c m.value).1) [
    | inr (x, failed) ↦ rw (failed, expire_all) (listeners-remove c m.value)
    | inl (_, done) ↦
        rw (done, expire_all)
          (listeners-expire_all (remove e c m.value).0 ms ∙ listeners-remove c m.value)
  ]

  pub listeners-clean_expired :
      (c : Controller e) (now : ℕ) → (clean_expired e c now).listeners ≡ c.listeners
  unfolding clean_expired
  listeners-clean_expired c now = listeners-expire_all c _
