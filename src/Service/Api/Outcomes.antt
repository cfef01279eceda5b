-- ===== src/Service/Api/Outcomes.antt =====
-- What the requests that write do to the stored services and whom they notify, by their responses.
use lslc_core.Common.{
  ℕ, String, Bool, true, false, ◌≡◌, refl, ap, sym, ◌∙◌, [], ◌∷◌, ◌++◌, Option, none, some, Result,
  err, ◌==◌, Bool-cases, inl, inr, ◌⊎◌, if◌then◌else◌,
}
use lslc_core.Resource.{CatalogError, not_found, conflict, bad_request, other, panicked}
use lslc_core.Service.{Service}
use lslc_core.Service.Controller.{Env, Controller, repeat, added, deleted, add, update}
use lslc_core.Service.Controller.Outcomes.{
  view, Unchanged, Added, Updated, IsKeyed, AddResult, UpdateResult, service_add_outcome,
  service_update_outcome, service_delete_outcome,
}
use lslc_core.Service.Api.{
  Response, created, done, failure, dropped, parsed, post, put, delete_service, location,
  error_response, internal, found_or, post_error, put_error, created_or, after_update,
}

-- A response with the status 200 or 201.
abbrev pub is_success : Response → Bool
is_success (failure code m) = false
is_success dropped = false
is_success _ = true

post_error_fails : (x : CatalogError) → is_success (post_error x) ≡ false
unfolding post_error error_response
post_error_fails (not_found m) = refl
post_error_fails (conflict m) = refl
post_error_fails (bad_request m) = refl
post_error_fails (other m) = refl
post_error_fails (panicked m) = refl

internal_fails : (p : String) (x : CatalogError) → is_success (internal (p ∷ []) x) ≡ false
unfolding error_response
internal_fails p (not_found m) = refl
internal_fails p (conflict m) = refl
internal_fails p (bad_request m) = refl
internal_fails p (other m) = refl
internal_fails p (panicked m) = refl

found_or_fails : (p : String) (x : CatalogError) → is_success (found_or p x) ≡ false
unfolding found_or error_response
found_or_fails p (not_found m) = refl
found_or_fails p (conflict m) = refl
found_or_fails p (bad_request m) = refl
found_or_fails p (other m) = refl
found_or_fails p (panicked m) = refl

module _ (e : Env) where
  unchanged : (c : Controller e) → Unchanged e c c
  unchanged c = record { views = λ j. refl; silent = refl; listening = refl }

  both : (c c' c'' : Controller e) → Unchanged e c c' → Unchanged e c' c'' → Unchanged e c c''
  both c c' c'' x y = record {
    views = λ j. y.views j ∙ x.views j;
    silent = y.silent ∙ x.silent;
    listening = y.listening ∙ x.listening;
  }

  -- The service `s'` was added for the registration `s`, and the response gives its location.
  abbrev pub Creates : Controller e → ℕ → Service → Controller e × Response → Type 0
  Creates c now s (c', r) =
      (id : String) × (s' : Service) × (r ≡ created (location e c' id)) × Added e now s c c' id s'

  -- The response is an error, or none, and nothing is changed.
  abbrev pub Refuses : Controller e → Controller e × Response → Type 0
  Refuses c (c', r) = (is_success r ≡ false) × Unchanged e c c'

  created_or_outcome :
      (handle : CatalogError → Response) (c : Controller e) (now : ℕ) (s : Service)
      (p : Controller e × Result CatalogError String)
      → ((x : CatalogError) → is_success (handle x) ≡ false)
      → AddResult e c now s p
      → Creates c now s (created_or e handle p) ⊎ Refuses c (created_or e handle p)
  unfolding created_or
  created_or_outcome handle c now s (c', r) fails (inl (id, s', good, news)) =
      rw (good, created_or) (inl (id, s', refl, news))
  created_or_outcome handle c now s (c', r) fails (inr (x, bad, same)) =
      rw (bad, created_or) (inr (fails x, same))

  -- A Post either creates the service of its body, tells every listener of it, and answers with its
  -- location, or answers with an error, or not at all, changes no stored service and calls no
  -- listener.
  pub service_post_outcome :
      (c : Controller e) (now : ℕ) (s : Service)
      → Creates c now s (post e c now (parsed s)) ⊎ Refuses c (post e c now (parsed s))
  unfolding post error_response
  service_post_outcome c now s = elim (Bool-cases (s.id == "")) [
    | inr own ↦ rw (own, post) (inr (refl, unchanged c))
    | inl fresh ↦
        rw (fresh, post)
          (created_or_outcome post_error c now s (add e c now s) post_error_fails
            (service_add_outcome e c now s))
  ]

  -- The service with the id of the path was replaced by the body.
  abbrev pub Replaces : Controller e → ℕ → String → Service → Controller e × Response → Type 0
  Replaces c now id s (c', r) =
      (r ≡ done) × (old : Service) × (s' : Service) × Updated e now id s c c' old s'

  abbrev PutOutcome : Controller e → ℕ → String → Service → Controller e × Response → Type 0
  PutOutcome c now id s p =
      Replaces c now id s p ⊎ (Creates c now (record s { id = id }) p ⊎ Refuses c p)

  -- The second call sees the same services as the first.
  Added-Unchanged :
      (now : ℕ) (s : Service) (c c' c'' : Controller e) (id : String) (s' : Service)
      → Unchanged e c c'
      → Added e now s c' c'' id s'
      → Added e now s c c'' id s'
  Added-Unchanged now s c c' c'' id s' same a = record {
    free = sym (same.views id) ∙ a.free;
    views =
        λ j. a.views j ∙ ap (λ (o : Option Service). if id == j then some s' else o) (same.views j);
    keyed = a.keyed;
    own = a.own;
    fields = a.fields;
    told =
        a.told
        ∙ ap (λ l. l ++ repeat c'.listeners (added s')) same.silent
        ∙ ap (λ n. c.notices ++ repeat n (added s')) same.listening;
  }

  created_later :
      (c c' : Controller e) (now : ℕ) (id : String) (s : Service)
      → Unchanged e c c'
      → let p =
          created_or e (internal ("Error creating the registration:" ∷ [])) (add e c' now s) in
        Creates c now s p ⊎ Refuses c p
  created_later c c' now id s same =
      let handle = internal ("Error creating the registration:" ∷ []) in
      let fails = internal_fails "Error creating the registration:" in
      elim (created_or_outcome handle c' now s (add e c' now s) fails
        (service_add_outcome e c' now s)) [
          | inl (id', s', answered, news) ↦
              inl (id', s', answered, Added-Unchanged now s c c' _ id' s' same news)
          | inr (failed, same') ↦ inr (failed, both c c' _ same same')
        ]

  put_error_fails : (x : CatalogError) → is_success (put_error x) ≡ false
  unfolding put_error error_response
  put_error_fails (not_found m) = refl
  put_error_fails (conflict m) = refl
  put_error_fails (bad_request m) = refl
  put_error_fails (other m) = refl
  put_error_fails (panicked m) = refl

  after_error :
      (c c' : Controller e) (now : ℕ) (id : String) (s : Service) (x : CatalogError)
      → Unchanged e c c'
      → PutOutcome c now id s (after_update e now id s (c', err x))
  unfolding after_update
  after_error c c' now id s (not_found m) same =
      inr (created_later c c' now id (record s { id = id }) same)
  after_error c c' now id s (conflict m) same = inr (inr (put_error_fails (conflict m), same))
  after_error c c' now id s (bad_request m) same = inr (inr (put_error_fails (bad_request m), same))
  after_error c c' now id s (other m) same = inr (inr (put_error_fails (other m), same))
  after_error c c' now id s (panicked m) same = inr (inr (put_error_fails (panicked m), same))

  after_update_outcome :
      (c : Controller e) (now : ℕ) (id : String) (s : Service)
      (p : Controller e × Result CatalogError (Unit {0}))
      → UpdateResult e c now id s p
      → PutOutcome c now id s (after_update e now id s p)
  unfolding after_update
  after_update_outcome c now id s (c', r) (inl (good, old, s', u)) =
      rw (good, after_update) (inl (refl, old, s', u))
  after_update_outcome c now id s (c', r) (inr (x, bad, same)) =
      rw bad (after_error c c' now id s x same)

  -- If the services are stored under their ids, a Put either replaces the stored service with the
  -- id of the path, whose protocols stay as they were, tells every listener of the body, and answers
  -- 200, or, where the update reports no such service, creates the body as a service with this id,
  -- tells every listener of it, and answers with its location, or answers with an error, or not at
  -- all, changes no stored service and calls no listener.
  pub service_put_outcome :
      (c : Controller e) (now : ℕ) (id : String) (s : Service)
      → IsKeyed e c
      → Replaces c now id s (put e c now id (parsed s))
        ⊎ (Creates c now (record s { id = id }) (put e c now id (parsed s))
            ⊎ Refuses c (put e c now id (parsed s)))
  unfolding put
  service_put_outcome c now id s x =
      after_update_outcome c now id s (update e c now id s) (service_update_outcome e c now id s x)

  -- A Delete either removes the service with the id of the path, and no other, tells every listener,
  -- and answers 200, or answers with an error, or not at all, changes no stored service and calls
  -- no listener.
  pub delete_service_outcome :
      (c : Controller e) (id : String)
      → (((delete_service e c id).1 ≡ done)
          × ((old : Service) × (view e c id ≡ some old)
              × ((delete_service e c id).0.notices
                  ≡ c.notices ++ repeat c.listeners (deleted old.id)))
          × ((j : String)
              → view e (delete_service e c id).0 j ≡ (if id == j then none else view e c j)))
        ⊎ Refuses c (delete_service e c id)
  unfolding delete_service
  delete_service_outcome c id = elim (service_delete_outcome e c id) [
    | inl (good, was, views) ↦ rw (good, delete_service) (inl (refl, was, views))
    | inr (x, bad, same) ↦
        rw (bad, delete_service) (inr (found_or_fails "Error deleting the service:" x, same))
  ]
