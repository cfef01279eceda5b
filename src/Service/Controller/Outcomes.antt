-- ===== src/Service/Controller/Outcomes.antt =====
-- What add, update, delete and cleanExpired do to the stored services, and whom they notify.
use lslc_core.Common.{
  ℕ, String, true, false, ◌≡◌, refl, ap, ◌∙◌, List, [], ◌∷◌, ◌++◌, Option, none, some, Result, ok,
  err, ◌==◌, if◌then◌else◌, Bool-cases, Result-cases, inl, inr, ◌⊎◌,
}
use lslc_core.Common.Words.{add_seconds}
use lslc_core.Tree.Nodes.{Map}
use lslc_core.Resource.{CatalogError, bad_request}
use lslc_core.Service.{Service, validate, is_zero_ttl}
use lslc_core.Service.Controller.{
  Env, Controller, Notice, added, updated, deleted, repeat, expiry, seconds_word, new_urn, notify,
  add_indices, remove_indices, service_id, stamp, announce, store_new, add, refresh, store_update,
  update, remove, tell, delete, expire_all, clean_expired,
}

module _ (e : Env) where
  abbrev pub view : Controller e → String → Option Service
  view c = e.storage.view c.storage

  abbrev pub with_service : String → Service → (String → Option Service) → String → Option Service
  with_service id s v j = if id == j then some s else v j

  -- No stored service is changed, no listener is called, and the listeners stay.
  pub record Unchanged (c c' : Controller e) : Type 0 where
    pub views : (j : String) → view c' j ≡ view c j
    pub silent : c'.notices ≡ c.notices
    pub listening : c'.listeners ≡ c.listeners

  -- The services are stored under their ids.
  abbrev pub IsKeyed : Controller e → Type 0
  IsKeyed c = (id : String) (s : Service) → view c id ≡ some s → s.id ≡ id

  pub forever_lem :
      (c : Controller e) (s : Service) → is_zero_ttl s.ttl ≡ true → add_indices e c s ≡ (c, ok tt)
  unfolding add_indices
  forever_lem c s h = rw h

  pub timed_lem :
      (c : Controller e) (s : Service) (at : ℕ)
      → is_zero_ttl s.ttl ≡ false
      → s.expires ≡ some at
      → add_indices e c s ≡ (
        record c { exp_sid = e.exp_tree.add (record { key = at; value = s.id }) c.exp_sid },
        ok tt,
      )
  unfolding add_indices
  timed_lem c s at h k = rw (h, k)

  -- After addIndices and the listeners: the services are the same, and each listener is called.
  announced :
      (c : Controller e) (s : Service) (now : ℕ) (n : Notice)
      → s.expires ≡ expiry now s.ttl
      → let p = announce e n (add_indices e c s) in
        (p.1 ≡ ok tt)
        × (p.0.storage ≡ c.storage)
        × (p.0.notices ≡ c.notices ++ repeat c.listeners n)
  unfolding announce expiry notify
  announced c s now n h = elim (Bool-cases (is_zero_ttl s.ttl)) [
    | inl forever ↦ rw (forever_lem c s forever) (refl, refl, refl)
    | inr timed ↦
        let at = add_seconds now (seconds_word s.ttl) in
        let date : s.expires ≡ some at = h ∙ rw timed in
        rw (timed_lem c s at timed date) (refl, refl, refl)
  ]

  -- The registration `s` became the service `s'`, under an id that was free, and every listener is
  -- told of `s'`.
  pub record Added (now : ℕ) (s : Service) (c c' : Controller e) (id : String) (s' : Service)
      : Type 0 where
    pub free : view c id ≡ none
    pub views : (j : String) → view c' j ≡ with_service id s' (view c) j
    pub keyed : s'.id ≡ id
    pub own : (s.id == "") ≡ false → id ≡ s.id
    pub fields :
        (s'.name ≡ s.name)
        × (s'.meta ≡ s.meta)
        × (s'.protocols ≡ s.protocols)
        × (s'.ttl ≡ s.ttl)
        × (s'.expires ≡ expiry now s.ttl)
    pub told : c'.notices ≡ c.notices ++ repeat c.listeners (added s')

  abbrev pub AddResult :
      Controller e → ℕ → Service → Controller e × Result CatalogError String → Type 0
  AddResult c now s (c', r) =
      ((id : String) × (s' : Service) × (r ≡ ok id) × Added now s c c' id s')
      ⊎ ((x : CatalogError) × (r ≡ err x) × Unchanged c c')

  store_new_outcome :
      (c : Controller e) (s : Service) (now : ℕ)
      → s.expires ≡ expiry now s.ttl
      → (((store_new e c s).1 ≡ ok s.id)
          × (view c s.id ≡ none)
          × ((j : String) → view (store_new e c s).0 j ≡ with_service s.id s (view c) j)
          × ((store_new e c s).0.notices ≡ c.notices ++ repeat c.listeners (added s)))
        ⊎ ((x : CatalogError) × ((store_new e c s).1 ≡ err x) × Unchanged c (store_new e c s).0)
  unfolding store_new
  store_new_outcome c s now h = elim (Result-cases (e.storage.add s c.storage).1) [
    | inr (x, failed) ↦ inr (
      x,
      rw (failed, store_new),
      rw (failed, store_new)
          (record {
            views = e.storage.add_err s c.storage x failed;
            silent = refl;
            listening = refl;
          }),
    )
    | inl (_, done) ↦
        let (new, stored) = e.storage.add_ok s c.storage done in
        let c' : Controller e = record c { storage = (e.storage.add s c.storage).0 } in
        let (good, same, told) = announced c' s now (added s) h in
        inl (
          rw (done, good, store_new) refl,
          new,
          λ j. rw (done, store_new) (ap (λ st. e.storage.view st j) same ∙ stored j),
          rw (done, store_new) told,
        )
  ]

  -- The end of add, told of the controller before the id was generated.
  stored_at :
      (c : Controller e) (k now : ℕ) (id : String) (s : Service)
      → ((s.id == "") ≡ false → id ≡ s.id)
      → let c' : Controller e = record c { counter = k } in
        AddResult c now s (store_new e c' (stamp e c' now id s))
  unfolding stamp
  stored_at c k now id s own =
      let c' : Controller e = record c { counter = k } in
      let s' = stamp e c' now id s in
      elim (store_new_outcome c' s' now (unfold stamp in refl)) [
        | inr (x, failed, same) ↦ inr (
          x,
          failed,
          record { views = same.views; silent = same.silent; listening = same.listening },
        )
        | inl (good, new, views, told) ↦ inl (
          id,
          s',
          good,
          record {
            free = new;
            views = views;
            keyed = refl;
            own = own;
            fields = (refl, refl, refl, refl, refl);
            told = told;
          },
        )
      ]

  -- add either stores the registration as one new service, under its own id or a generated one, and
  -- calls every listener once with the stored service, or fails, changes no service and calls no
  -- listener.
  pub service_add_outcome :
      (c : Controller e) (now : ℕ) (s : Service) → AddResult c now s (add e c now s)
  unfolding add service_id new_urn
  service_add_outcome c now s = elim (Result-cases (validate s)) [
    | inr (m, invalid) ↦
        rw (invalid, add)
          (inr (bad_request m, refl, record { views = λ j. refl; silent = refl; listening = refl }))
    | inl (_, valid) ↦ elim (Bool-cases (s.id == "")) [
      | inl fresh ↦
          rw (valid, fresh, add, service_id)
            (stored_at c (new_urn e c).0.counter now (new_urn e c).1 s (λ h. absurd (cc)))
      | inr own ↦ rw (valid, own, add, service_id) (stored_at c c.counter now s.id s (λ h. refl))
    ]
  ]

  -- The stored service `old` became `s'`: its id, URL, protocols and creation time stay, and the
  -- registration `s` gives the rest. Every listener is told of `s`, as it came with the request.
  pub record Updated (now : ℕ) (id : String) (s : Service) (c c' : Controller e) (old s' : Service)
      : Type 0 where
    pub was : view c id ≡ some old
    pub views : (j : String) → view c' j ≡ with_service id s' (view c) j
    pub kept :
        (s'.id ≡ old.id)
        × (s'.url ≡ old.url)
        × (s'.created ≡ old.created)
        × (s'.protocols ≡ old.protocols)
    pub fields :
        (s'.name ≡ s.name)
        × (s'.meta ≡ s.meta)
        × (s'.description ≡ s.description)
        × (s'.ttl ≡ s.ttl)
        × (s'.updated ≡ now)
        × (s'.expires ≡ expiry now s.ttl)
    pub told : c'.notices ≡ c.notices ++ repeat c.listeners (updated s)

  abbrev pub UpdateResult :
      Controller e → ℕ → String → Service → Controller e × Result CatalogError (Unit {0}) → Type 0
  UpdateResult c now id s (c', r) =
      ((r ≡ ok tt) × (old : Service) × (s' : Service) × Updated now id s c c' old s')
      ⊎ ((x : CatalogError) × (r ≡ err x) × Unchanged c c')

  store_update_outcome :
      (c : Controller e) (now : ℕ) (id : String) (old s : Service)
      → view c id ≡ some old
      → old.id ≡ id
      → UpdateResult c now id s (store_update e c id old (refresh e now old s) s)
  unfolding store_update remove_indices refresh
  store_update_outcome c now id old s was same =
      let s' = refresh e now old s in
      elim (Result-cases (e.storage.update id s' c.storage).1) [
        | inr (x, failed) ↦
            rw (failed, store_update)
              (inr (
                x,
                refl,
                record {
                  views = e.storage.update_err id s' c.storage x failed;
                  silent = refl;
                  listening = refl;
                },
              ))
        | inl (_, done) ↦
            let c' : Controller e =
              remove_indices e (record c { storage = (e.storage.update id s' c.storage).0 }) old in
            let (good, kept, told) = announced c' s' now (updated s) (unfold refresh in refl) in
            rw (done, store_update)
              (inl (
                good,
                old,
                s',
                record {
                  was = was;
                  views = λ j.
                      ap (λ st. e.storage.view st j) kept
                      ∙ e.storage.update_ok id s' old c.storage was same done j;
                  kept = (refl, refl, refl, refl);
                  fields = (refl, refl, refl, refl, refl, refl);
                  told = told;
                },
              ))
      ]

  -- Where services are stored under their ids, update either replaces the stored service by the
  -- registration, its id, URL, protocols and creation time kept, and calls every listener once with
  -- the registration of the request, or fails, changes no service and calls no listener.
  pub service_update_outcome :
      (c : Controller e) (now : ℕ) (id : String) (s : Service)
      → IsKeyed c
      → UpdateResult c now id s (update e c now id s)
  unfolding update
  service_update_outcome c now id s keyed = elim (Result-cases (validate s)) [
    | inr (m, invalid) ↦
        rw (invalid, update)
          (inr (bad_request m, refl, record { views = λ j. refl; silent = refl; listening = refl }))
    | inl (_, valid) ↦ elim (Result-cases (e.storage.get id c.storage)) [
      | inr (x, missing) ↦
          rw (valid, missing, update)
            (inr (x, refl, record { views = λ j. refl; silent = refl; listening = refl }))
      | inl (old, found) ↦
          let was = e.storage.get_ok id c.storage old found in
          rw (valid, found, update) (store_update_outcome c now id old s was (keyed id old was))
    ]
  ]

  delete_done :
      (c : Controller e) (id : String) (old : Service)
      → e.storage.get id c.storage ≡ ok old
      → (e.storage.delete id c.storage).1 ≡ ok tt
      → delete e c id ≡ (
        notify e
            (deleted old.id)
            (remove_indices e (record c { storage = (e.storage.delete id c.storage).0 }) old),
        ok tt,
      )
  unfolding delete tell
  delete_done c id old found done =
      let at_end : remove e c id ≡ (
        remove_indices e (record c { storage = (e.storage.delete id c.storage).0 }) old,
        ok old,
      ) =
        unfold remove in (rw (found, done, remove) refl) in
      ap (tell e) at_end

  delete_failed :
      (c : Controller e) (id : String) (old : Service) (x : CatalogError)
      → e.storage.get id c.storage ≡ ok old
      → (e.storage.delete id c.storage).1 ≡ err x
      → delete e c id ≡ (record c { storage = (e.storage.delete id c.storage).0 }, err x)
  unfolding delete tell
  delete_failed c id old x found failed =
      let at_end : remove e c id
          ≡ (record c { storage = (e.storage.delete id c.storage).0 }, err x) =
        unfold remove in (rw (found, failed, remove) refl) in
      ap (tell e) at_end

  delete_missing :
      (c : Controller e) (id : String) (x : CatalogError)
      → e.storage.get id c.storage ≡ err x
      → delete e c id ≡ (c, err x)
  unfolding delete tell
  delete_missing c id x missing =
      let at_end : remove e c id ≡ (c, err x) = unfold remove in (rw (missing, remove) refl) in
      ap (tell e) at_end

  -- delete either removes the service with the id, and no other, and calls every listener once with
  -- the id of the stored service, or fails, changes no service and calls no listener.
  pub service_delete_outcome :
      (c : Controller e) (id : String)
      → (((delete e c id).1 ≡ ok tt)
          × ((old : Service) × (view c id ≡ some old)
              × ((delete e c id).0.notices ≡ c.notices ++ repeat c.listeners (deleted old.id)))
          × ((j : String) → view (delete e c id).0 j ≡ (if id == j then none else view c j)))
        ⊎ ((x : CatalogError) × ((delete e c id).1 ≡ err x) × Unchanged c (delete e c id).0)
  unfolding delete remove remove_indices notify
  service_delete_outcome c id = elim (Result-cases (e.storage.get id c.storage)) [
    | inr (x, missing) ↦
        rw (delete_missing c id x missing)
          (inr (x, refl, record { views = λ j. refl; silent = refl; listening = refl }))
    | inl (old, found) ↦ elim (Result-cases (e.storage.delete id c.storage).1) [
      | inr (x, failed) ↦ rw (delete_failed c id old x found failed) (
          inr (
            x,
            refl,
            record {
              views = e.storage.delete_err id c.storage x failed;
              silent = refl;
              listening = refl;
            },
          ))
      | inl (_, done) ↦ rw (delete_done c id old found done) (
          inl (
            refl,
            (old, e.storage.get_ok id c.storage old found, refl),
            e.storage.delete_ok id c.storage done,
          ))
    ]
  ]

  remove_silent : (c : Controller e) (id : String) → (remove e c id).0.notices ≡ c.notices
  unfolding remove remove_indices
  remove_silent c id = elim (Result-cases (e.storage.get id c.storage)) [
    | inr (x, missing) ↦ rw (missing, remove) refl
    | inl (old, found) ↦ elim (Result-cases (e.storage.delete id c.storage).1) [
      | inr (x, failed) ↦ rw (found, failed, remove) refl
      | inl (_, done) ↦ rw (found, done, remove) refl
    ]
  ]

  expire_all_silent :
      (c : Controller e) (ms : List (Map ℕ)) → (expire_all e c ms).notices ≡ c.notices
  unfolding expire_all
  expire_all_silent c [] = refl
  expire_all_silent c (m ∷ ms) = elim (Result-cases (remove e c m.value).1) [
    | inr (x, failed) ↦ rw (failed, expire_all) (remove_silent c m.value)
    | inl (old, done) ↦
        rw (done, expire_all)
          (expire_all_silent (remove e c m.value).0 ms ∙ remove_silent c m.value)
  ]

  -- A tick of cleanExpired calls no listener, whichever services it removes.
  pub service_clean_expired_silent :
      (c : Controller e) (now : ℕ) → (clean_expired e c now).notices ≡ c.notices
  unfolding clean_expired
  service_clean_expired_silent c now = expire_all_silent c _
