-- ===== src/Resource/Api/Outcomes.antt =====
-- What the requests that write do to the stored devices, by their responses.
use lslc_core.Common.{
  ℕ, String, Bool, true, false, ◌≡◌, refl, ap, sym, subst, ◌∙◌, [], ◌∷◌, Option, some, Result, err,
  ◌==◌, eq_refl, Bool-cases, inl, inr, ◌⊎◌, if◌then◌else◌, result_map,
}
use lslc_core.Common.Words.{concat}
use lslc_core.Resource.{
  Device, CatalogError, not_found, conflict, bad_request, other, panicked, simplify,
}
use lslc_core.Resource.Store.{IsReliable}
use lslc_core.Resource.State.{Env, Controller}
use lslc_core.Resource.Controller.{add, update}
use lslc_core.Resource.Controller.Effects.{Unchanged, Added, AddOutcome, add_outcome}
use lslc_core.Resource.Controller.Changes.{Updated, UpdateOutcome, update_outcome, delete_outcome}
use lslc_core.Resource.Controller.Placement.{Holds, resource_url}
use lslc_core.Resource.Indices.Sound.{IsIndexed, view, without}
use lslc_core.Resource.Reads.{get}
use lslc_core.Resource.Api.{
  Response, created, done, failure, dropped, parsed, post, put, delete_device, get_device,
  one_device, location, error_response, internal, found_or, post_error, put_error, created_or,
  after_update,
}

-- A response with the status 200 or 201.
abbrev pub is_success : Response → Bool
is_success (failure code m) = false
is_success dropped = false
is_success _ = true

post_error_fails : (x : CatalogError) → is_success (post_error x) ≡ false
unfolding post_error error_response
post_error_fails (not_found m) = refl
post_error_fails (conflict m) = refl
post_error_fails (bad_request m) = refl
post_error_fails (other m) = refl
post_error_fails (panicked m) = refl

internal_fails : (p : String) (x : CatalogError) → is_success (internal (p ∷ []) x) ≡ false
unfolding error_response
internal_fails p (not_found m) = refl
internal_fails p (conflict m) = refl
internal_fails p (bad_request m) = refl
internal_fails p (other m) = refl
internal_fails p (panicked m) = refl

found_or_fails : (p : String) (x : CatalogError) → is_success (found_or p x) ≡ false
unfolding found_or error_response
found_or_fails p (not_found m) = refl
found_or_fails p (conflict m) = refl
found_or_fails p (bad_request m) = refl
found_or_fails p (other m) = refl
found_or_fails p (panicked m) = refl

module _ (e : Env) (api_location : String) where
  unchanged : (c : Controller e) → Unchanged e c c
  unchanged c = record { views = λ j. refl; rids = refl; exps = refl; location = refl }

  both : (c c' c'' : Controller e) → Unchanged e c c' → Unchanged e c' c'' → Unchanged e c c''
  both c c' c'' x y = record {
    views = λ j. y.views j ∙ x.views j;
    rids = y.rids ∙ x.rids;
    exps = y.exps ∙ x.exps;
    location = y.location ∙ x.location;
  }

  get_stored :
      (c : Controller e) (id : String) (d : Device)
      → IsReliable e.storage c.storage
      → view e c id ≡ some d
      → get_device e c id ≡ one_device (simplify d)
  unfolding get_device get
  get_stored c id d reliable there = rw (reliable.got id d there, get_device, get, result_map) refl

  -- The device `d'` was added for the registration `d`, and the response gives its location.
  abbrev pub Creates : Controller e → ℕ → Device → Controller e × Response → Type 0
  Creates c now d (c', r) =
      (id : String) × (d' : Device) × (r ≡ created (location e api_location id))
      × Added e now d c c' id d'

  -- The response is an error, or none, and nothing is changed.
  abbrev pub Refuses : Controller e → Controller e × Response → Type 0
  Refuses c (c', r) = (is_success r ≡ false) × Unchanged e c c'

  created_or_outcome :
      (handle : CatalogError → Response) (c : Controller e) (now : ℕ) (d : Device)
      (p : Controller e × Result CatalogError String)
      → ((x : CatalogError) → is_success (handle x) ≡ false)
      → AddOutcome e c now d p
      → Creates c now d (created_or e api_location handle p)
        ⊎ Refuses c (created_or e api_location handle p)
  unfolding created_or
  created_or_outcome handle c now d (c', r) fails (inl (id, d', good, added)) =
      rw (good, created_or) (inl (id, d', refl, added))
  created_or_outcome handle c now d (c', r) fails (inr (x, bad, same)) =
      rw (bad, created_or) (inr (fails x, same))

  -- A Post either creates the device of its body, with the resources of the body, and answers with
  -- its location, or answers with an error, or not at all, and changes no stored device and no index.
  pub post_outcome :
      (c : Controller e) (now : ℕ) (d : Device)
      → Creates c now d (post e api_location c now (parsed d))
        ⊎ Refuses c (post e api_location c now (parsed d))
  unfolding post error_response
  post_outcome c now d = elim (Bool-cases (d.id == "")) [
    | inr own ↦ rw (own, post) (inr (refl, unchanged c))
    | inl fresh ↦
        rw (fresh, post)
          (created_or_outcome post_error c now d (add e c now d) post_error_fails
            (add_outcome e c now d))
  ]

  -- The device with the id of the path was replaced by the body.
  abbrev pub Replaces : Controller e → ℕ → String → Device → Controller e × Response → Type 0
  Replaces c now id d (c', r) =
      (r ≡ done) × (old : Device) × (d' : Device) × Updated e now id d c c' old d'

  abbrev PutOutcome : Controller e → ℕ → String → Device → Controller e × Response → Type 0
  PutOutcome c now id d p =
      Replaces c now id d p ⊎ (Creates c now (record d { id = id }) p ⊎ Refuses c p)

  -- The second call sees the same devices as the first.
  Added-Unchanged :
      (now : ℕ) (d : Device) (c c' c'' : Controller e) (id : String) (d' : Device)
      → Unchanged e c c'
      → Added e now d c' c'' id d'
      → Added e now d c c'' id d'
  Added-Unchanged now d c c' c'' id d' same a = record {
    free = sym (same.views id) ∙ a.free;
    views =
        λ j. a.views j ∙ ap (λ (o : Option Device). if id == j then some d' else o) (same.views j);
    keyed = a.keyed;
    own = a.own;
    fields = a.fields;
    times = a.times;
    located = a.located ∙ ap (λ url. concat (url ∷ "/" ∷ "devices" ∷ "/" ∷ id ∷ [])) same.location;
    resources =
        subst
          (λ base.
            Holds (λ i. concat (base ∷ "/" ∷ "resources" ∷ "/" ∷ i ∷ [])) d'.url d.resources
              d'.resources)
          same.location a.resources;
  }

  created_later :
      (c c' : Controller e) (now : ℕ) (id : String) (d : Device)
      → Unchanged e c c'
      → let p =
          created_or e api_location
            (internal ("Error creating the registration:" ∷ []))
            (add e c' now d) in
        Creates c now d p ⊎ Refuses c p
  created_later c c' now id d same =
      let handle = internal ("Error creating the registration:" ∷ []) in
      let fails = internal_fails "Error creating the registration:" in
      elim (created_or_outcome handle c' now d (add e c' now d) fails (add_outcome e c' now d)) [
        | inl (id', d', answered, added) ↦
            inl (id', d', answered, Added-Unchanged now d c c' _ id' d' same added)
        | inr (failed, same') ↦ inr (failed, both c c' _ same same')
      ]

  put_error_fails : (x : CatalogError) → is_success (put_error x) ≡ false
  unfolding put_error error_response
  put_error_fails (not_found m) = refl
  put_error_fails (conflict m) = refl
  put_error_fails (bad_request m) = refl
  put_error_fails (other m) = refl
  put_error_fails (panicked m) = refl

  after_error :
      (c c' : Controller e) (now : ℕ) (id : String) (d : Device) (x : CatalogError)
      → Unchanged e c c'
      → PutOutcome c now id d (after_update e api_location now id d (c', err x))
  unfolding after_update
  after_error c c' now id d (not_found m) same =
      inr (created_later c c' now id (record d { id = id }) same)
  after_error c c' now id d (conflict m) same = inr (inr (put_error_fails (conflict m), same))
  after_error c c' now id d (bad_request m) same = inr (inr (put_error_fails (bad_request m), same))
  after_error c c' now id d (other m) same = inr (inr (put_error_fails (other m), same))
  after_error c c' now id d (panicked m) same = inr (inr (put_error_fails (panicked m), same))

  after_update_outcome :
      (c : Controller e) (now : ℕ) (id : String) (d : Device)
      (p : Controller e × Result CatalogError (Unit {0}))
      → UpdateOutcome e c now id d p
      → PutOutcome c now id d (after_update e api_location now id d p)
  unfolding after_update
  after_update_outcome c now id d (c', r) (inl (good, old, d', u)) =
      rw (good, after_update) (inl (refl, old, d', u))
  after_update_outcome c now id d (c', r) (inr (x, bad, same)) =
      rw bad (after_error c c' now id d x same)

  -- Over sound indices, a Put either replaces the stored device with the id of the path by the body,
  -- the resources of the body in place of the old ones, and answers 200, or, where the update reports
  -- no such device, creates the body as a device with this id and answers with its location, or
  -- answers with an error, or not at all, and changes no stored device and no index.
  pub put_outcome :
      (c : Controller e) (now : ℕ) (id : String) (d : Device)
      → IsIndexed e c
      → Replaces c now id d (put e api_location c now id (parsed d))
        ⊎ (Creates c now (record d { id = id }) (put e api_location c now id (parsed d))
            ⊎ Refuses c (put e api_location c now id (parsed d)))
  unfolding put
  put_outcome c now id d x =
      after_update_outcome c now id d (update e c now id d) (update_outcome e c now id d x)

  -- A Get after a Put that answers 200 or 201 answers 200 with the device of the body, which is then
  -- stored: under the id of the path, with its name, description, meta data, TTL and the time of the
  -- Put, and with the resources of the body, each as it was sent but for its URL, its type, the URL of
  -- its device and, if it was empty, its id, sorted by the ids. The id of the path is not empty, the
  -- indices are sound, and the storage that the Put leaves fails nowhere where it could succeed.
  pub put_then_get :
      (c : Controller e) (now : ℕ) (id : String) (d : Device)
      → IsIndexed e c
      → (id == "") ≡ false
      → is_success (put e api_location c now id (parsed d)).1 ≡ true
      → let c' = (put e api_location c now id (parsed d)).0 in
        IsReliable e.storage c'.storage
        → (d' : Device) × (get_device e c' id ≡ one_device (simplify d'))
          × (view e c' id ≡ some d')
          × (d'.id ≡ id)
          × (d'.name ≡ d.name)
          × (d'.description ≡ d.description)
          × (d'.meta ≡ d.meta)
          × (d'.ttl ≡ d.ttl)
          × (d'.updated ≡ now)
          × Holds (resource_url e c) d'.url d.resources d'.resources
  put_then_get c now id d x named good reliable = elim (put_outcome c now id d x) [
    | inr (inr (bad, _)) ↦ cc
    | inl (_, old, d', u) ↦
        let (name, meta, description, ttl) = u.fields in
        (
          d',
          get_stored (put e api_location c now id (parsed d)).0 id d' reliable
              (u.views id ∙ rw eq_refl),
          u.views id ∙ rw eq_refl,
          u.kept.0 ∙ x.keyed id old u.was,
          name,
          description,
          meta,
          ttl,
          u.times.0,
          subst (λ url. Holds (resource_url e c) url d.resources d'.resources) (sym u.kept.1)
              u.resources,
        )
    | inr (inl (id', d', _, a)) ↦
        let (name, meta, description, ttl) = a.fields in
        let same : id' ≡ id = a.own named in
        (
          d',
          get_stored (put e api_location c now id (parsed d)).0 id d' reliable
              (a.views id ∙ rw (same, eq_refl)),
          a.views id ∙ rw (same, eq_refl),
          a.keyed ∙ same,
          name,
          description,
          meta,
          ttl,
          a.times.1,
          a.resources,
        )
  ]

  -- A Delete either removes the device with the id of the path, and no other, and answers 200, or
  -- answers with an error, or not at all, and changes no stored device and no index.
  pub delete_device_outcome :
      (c : Controller e) (id : String)
      → (((delete_device e c id).1 ≡ done)
          × ((old : Device) × (view e c id ≡ some old))
          × ((j : String) → view e (delete_device e c id).0 j ≡ without id (view e c) j))
        ⊎ Refuses c (delete_device e c id)
  unfolding delete_device
  delete_device_outcome c id = elim (delete_outcome e c id) [
    | inl (good, was, views) ↦ rw (good, delete_device) (inl (refl, was, views))
    | inr (x, bad, same) ↦
        rw (bad, delete_device) (inr (found_or_fails "Error deleting the device:" x, same))
  ]
