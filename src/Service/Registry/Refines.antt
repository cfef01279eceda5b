-- ===== src/Service/Registry/Refines.antt =====
-- The controller of the service catalog refines the registry.
use lslc_core.Common.{
  ℕ, String, Bool, true, false, ◌≡◌, sym, ap, subst, ◌∙◌, inl, inr, List, [], ◌∷◌, ◌++◌, append-nil,
  append_assoc, Option, none, some, ◌==◌, if◌then◌else◌, eq_iff, Bool-cases,
}
use lslc_core.Resource.Controller.Run.{is_ok}
use lslc_core.Service.{Service}
use lslc_core.Service.Controller.{
  Env, Controller, Notice, added, updated, deleted, repeat, add, update, delete, clean_expired,
}
use lslc_core.Service.Controller.Outcomes.{
  view, Unchanged, IsKeyed, service_add_outcome, service_update_outcome, service_delete_outcome,
  service_clean_expired_silent,
}
use lslc_core.Service.Controller.Listeners.{
  listeners-add, listeners-update, listeners-delete, listeners-clean_expired,
}
use lslc_core.Service.Expiry.Sound.{IsTimed}
use lslc_core.Service.Expiry.Steps.{add-IsTimed, update-IsTimed, delete-IsTimed}
use lslc_core.Service.Registry.Ticks.{clean_expired-IsTimed, clean_expired-IsDue}
use lslc_core.Service.Registry.{
  View, Call, create, replace, erase, tick, step, run, succeeds, answers, Allowed, refused, created,
  replaced, erased, ticked, History, start, next_call,
}

-- The services of a registry stand under their ids.
abbrev Keyed : View → Type 0
Keyed v = (id : String) (s : Service) → v id ≡ some s → s.id ≡ id

put-Keyed :
    (v w : View) (id : String) (s : Service)
    → s.id ≡ id
    → ((j : String) → w j ≡ (if id == j then some s else v j))
    → Keyed v
    → Keyed w
put-Keyed v w id s own h keyed j x there = elim (Bool-cases (id == j)) [
  | inl hit ↦
      let e : some s ≡ some x = sym (h j ∙ ap (λ b. if b then some s else v j) hit) ∙ there in
      let one : s ≡ x = cc in sym (ap (λ (y : Service). y.id) one) ∙ own ∙ (eq_iff id j).0 hit
  | inr miss ↦ keyed j x (sym (h j ∙ ap (λ b. if b then some s else v j) miss) ∙ there)
]

-- Every allowed call keeps the services under their ids.
Allowed-Keyed :
    {n : ℕ} {v w : View} {x : Call} {b : Bool} {ns : List Notice} (j : String) (s : Service)
    → Allowed n v x b w ns
    → Keyed v
    → w j ≡ some s
    → s.id ≡ j
Allowed-Keyed j s (refused h) keyed there = keyed j s (sym (h j) ∙ there)
Allowed-Keyed j s (created {v} {w} id s' free own named fields h) keyed there =
    put-Keyed v w id s' named h keyed j s there
Allowed-Keyed j s (replaced {v} {w} {now} {id} old s' was kept fields h) keyed there =
    put-Keyed v w id s' (kept.0 ∙ keyed id old was) h keyed j s there
Allowed-Keyed j s (erased {v} {w} {id} old was h) keyed there = elim (Bool-cases (id == j)) [
  | inl hit ↦
      let bad : ◌≡◌ {A = Option Service} none (some s) =
        sym (h j ∙ ap (λ b. if b then none else v j) hit) ∙ there in
      absurd cc
  | inr miss ↦ keyed j s (sym (h j ∙ ap (λ b. if b then none else v j) miss) ∙ there)
]
Allowed-Keyed j s (ticked h) keyed there = elim (h j) [
  | inl same ↦ keyed j s (sym same ∙ there)
  | inr (_, _, _, gone) ↦
      let bad : ◌≡◌ {A = Option Service} none (some s) = sym gone ∙ there in absurd cc
]

module _ (e : Env) where
  -- A call is allowed, with the notices that it adds.
  abbrev Refined : Controller e → Call → Bool → Controller e → Type 0
  Refined c x b c' =
      (ns : List Notice) × Allowed c.listeners (view e c) x b (view e c') ns
      × (c'.notices ≡ c.notices ++ ns)

  nothing : (c c' : Controller e) (x : Call) → Unchanged e c c' → Refined c x false c'
  nothing c c' x same = ([], refused same.views, same.silent ∙ sym (append-nil c.notices))

  add-Refined :
      (c : Controller e) (now : ℕ) (s : Service)
      → Refined c (create now s) (is_ok (add e c now s).1) (add e c now s).0
  add-Refined c now s = elim (service_add_outcome e c now s) [
    | inr (x, failed, same) ↦ rw failed (nothing c (add e c now s).0 (create now s) same)
    | inl (id, s', good, a) ↦
        rw good (
          repeat c.listeners (added s'),
          created id s' a.free a.own a.keyed a.fields a.views,
          a.told,
        )
  ]

  update-Refined :
      (c : Controller e) (now : ℕ) (id : String) (s : Service)
      → IsKeyed e c
      → Refined c (replace now id s) (is_ok (update e c now id s).1) (update e c now id s).0
  update-Refined c now id s keyed = elim (service_update_outcome e c now id s keyed) [
    | inr (x, failed, same) ↦ rw failed (nothing c (update e c now id s).0 (replace now id s) same)
    | inl (good, old, s', u) ↦
        rw good
          (repeat c.listeners (updated s), replaced old s' u.was u.kept u.fields u.views, u.told)
  ]

  delete-Refined :
      (c : Controller e) (id : String)
      → Refined c (erase id) (is_ok (delete e c id).1) (delete e c id).0
  delete-Refined c id = elim (service_delete_outcome e c id) [
    | inr (x, failed, same) ↦ rw failed (nothing c (delete e c id).0 (erase id) same)
    | inl (good, (old, was, told), views) ↦
        rw good (repeat c.listeners (deleted old.id), erased old was views, told)
  ]

  tick-Refined :
      (c : Controller e) (now : ℕ) → IsTimed e c → Refined c (tick now) true (clean_expired e c now)
  tick-Refined c now x = (
    [],
    ticked (λ j. clean_expired-IsDue e c now j x),
    service_clean_expired_silent e c now ∙ sym (append-nil c.notices),
  )

  step-Refined :
      (c : Controller e) (x : Call)
      → IsKeyed e c
      → IsTimed e c
      → Refined c x (succeeds e c x) (step e c x)
  unfolding step succeeds
  step-Refined c (create now s) keyed x = add-Refined c now s
  step-Refined c (replace now id s) keyed x = update-Refined c now id s keyed
  step-Refined c (erase id) keyed x = delete-Refined c id
  step-Refined c (tick now) keyed x = tick-Refined c now x

  step-IsTimed : (c : Controller e) (x : Call) → IsKeyed e c → IsTimed e c → IsTimed e (step e c x)
  unfolding step
  step-IsTimed c (create now s) keyed x = add-IsTimed e c now s x
  step-IsTimed c (replace now id s) keyed x = update-IsTimed e c now id s keyed x
  step-IsTimed c (erase id) keyed x = delete-IsTimed e c id keyed x
  step-IsTimed c (tick now) keyed x = clean_expired-IsTimed e c now keyed x

  listeners-step : (c : Controller e) (x : Call) → (step e c x).listeners ≡ c.listeners
  unfolding step
  listeners-step c (create now s) = listeners-add e c now s
  listeners-step c (replace now id s) = listeners-update e c now id s
  listeners-step c (erase id) = listeners-delete e c id
  listeners-step c (tick now) = listeners-clean_expired e c now

  -- From a state in which the services are stored under their ids, and every node of the expiry index
  -- is of a stored service with a TTL that expires then, the controller refines the registry:
  -- whatever calls are made, their answers, the services stored in the end and the calls of the
  -- listeners are those of a history that the registry allows. A successful add, update or delete
  -- starts one call of each listener; a refused call and a tick start none. A tick removes services
  -- with a TTL that are due, and no other.
  pub service_run_refines :
      (c : Controller e) (xs : List Call)
      → IsKeyed e c
      → IsTimed e c
      → (ns : List Notice) × History c.listeners
          (view e c)
          xs
          (answers e c xs)
          (view e (run e c xs))
          ns
        × ((run e c xs).notices ≡ c.notices ++ ns)
  unfolding run answers
  service_run_refines c [] keyed timed = ([], start, sym (append-nil c.notices))
  service_run_refines c (x ∷ xs) keyed timed =
      let c' = step e c x in
      let (ns, allowed, told) = step-Refined c x keyed timed in
      let (ms, later, told') =
        service_run_refines c' xs (λ j s there. Allowed-Keyed j s allowed keyed there)
          (step-IsTimed c x keyed timed) in
      (
        ns ++ ms,
        next_call allowed (
            subst (λ n. History n (view e c') xs (answers e c' xs) (view e (run e c' xs)) ms)
              (listeners-step c x) later),
        told' ∙ ap (λ l. l ++ ms) told ∙ append_assoc c.notices ns ms,
      )
