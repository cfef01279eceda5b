-- ===== src/Resource/Controller/Effects.antt =====
-- What the methods of the controller do to the stored devices, on every branch.
use lslc_core.Common.{
  ℕ, String, false, ◌≡◌, refl, ap, sym, ◌∙◌, subst, List, none, some, Result, ok, err, result_map,
  if◌then◌else◌, ◌==◌, Bool-cases, Result-cases, inl, inr, ◌⊎◌, eqb,
}
use lslc_core.Common.Words.{add_seconds}
use lslc_core.Resource.{Device, Resource, CatalogError, validate, bad_request}
use lslc_core.Resource.State.{Env, Controller, add_indices}
use lslc_core.Resource.Controller.{
  add, add_valid, add_resources, device_id, stamp, store_new, expiry, url_of,
}
use lslc_core.Resource.Controller.Frame.{Frame, Frame-trans, Frame-device_id, Frame-add_resources}
use lslc_core.Resource.Controller.Placement.{
  Holds, resource_url, sort-Holds, add_resources-Placed, Frame-Holds,
}
use lslc_core.Resource.Sorting.{sort}
use lslc_core.Resource.Indices.Sound.{
  with_device, IsDated, view, add_indices_forever, add_indices_timed,
}

module _ (e : Env) where
  -- Nothing that a client can see, and neither index, is changed.
  pub record Unchanged (c c' : Controller e) : Type 0 where
    pub views : (j : String) → view e c' j ≡ view e c j
    pub rids : c'.rid_did ≡ c.rid_did
    pub exps : c'.exp_did ≡ c.exp_did
    pub location : c'.api_location ≡ c.api_location

  -- The registration `d` became the device `d'`, under an id that was free: its own or, if it has
  -- none, a new one, and the resources of `d'` are those of `d`. No other device is changed.
  pub record Added (now : ℕ) (d : Device) (c c' : Controller e) (id : String) (d' : Device)
      : Type 0 where
    pub free : view e c id ≡ none
    pub views : (j : String) → view e c' j ≡ with_device id d' (view e c) j
    pub keyed : d'.id ≡ id
    pub own : (d.id == "") ≡ false → id ≡ d.id
    pub fields :
        (d'.name ≡ d.name)
        × (d'.meta ≡ d.meta)
        × (d'.description ≡ d.description)
        × (d'.ttl ≡ d.ttl)
    pub times : (d'.created ≡ now) × (d'.updated ≡ now) × (d'.expires ≡ expiry now d.ttl)
    pub located : d'.url ≡ url_of e c "devices" id
    pub resources : Holds (resource_url e c) d'.url d.resources d'.resources

  pub Frame-Unchanged : (c c' : Controller e) → Frame e c c' → Unchanged c c'
  Frame-Unchanged c c' p =
      let same : Unchanged c (record c { counter = c'.counter }) = record {
        views = λ j. refl;
        rids = refl;
        exps = refl;
        location = refl;
      } in
      subst (λ (y : Controller e). Unchanged c y) (sym p) same

  pub storage-add_indices :
      (c : Controller e) (d : Device)
      → IsDated d
      → ((add_indices e c d).0.storage ≡ c.storage) × ((add_indices e c d).1 ≡ ok tt)
  storage-add_indices c d date = elim (Bool-cases (eqb d.ttl 0)) [
    | inl forever ↦ rw (add_indices_forever e c d forever) (refl, refl)
    | inr timed ↦
        let (at, expires) = date timed in rw (add_indices_timed e c d at timed expires) (refl, refl)
  ]

  pub expiry-IsDated : (now : ℕ) (d : Device) → d.expires ≡ expiry now d.ttl → IsDated d
  unfolding expiry
  expiry-IsDated now d h = λ timed. (add_seconds now d.ttl, h ∙ rw timed)

  -- The outcome of the last part of add.
  abbrev StoreOutcome : Controller e → Device → Type 0
  StoreOutcome c d =
      (((store_new e c d).1 ≡ ok d.id)
        × (view e c d.id ≡ none)
        × ((j : String) → view e (store_new e c d).0 j ≡ with_device d.id d (view e c) j))
      ⊎ ((x : CatalogError) × ((store_new e c d).1 ≡ err x) × Unchanged c (store_new e c d).0)

  store_new_outcome : (c : Controller e) (d : Device) → IsDated d → StoreOutcome c d
  unfolding store_new
  store_new_outcome c d date = elim (Result-cases (e.storage.add d c.storage).1) [
    | inr (x, failed) ↦ inr (
      x,
      rw (failed, store_new),
      rw (failed, store_new)
          (record {
            views = e.storage.add_err d c.storage x failed;
            rids = refl;
            exps = refl;
            location = refl;
          }),
    )
    | inl (_, done) ↦
        let c' : Controller e = record c { storage = (e.storage.add d c.storage).0 } in
        let (kept, indexed) = storage-add_indices c' d date in
        let (new, stored) = e.storage.add_ok d c.storage done in
        inl (
          rw (done, store_new) (ap (result_map (λ _. d.id)) indexed),
          new,
          λ j. rw (done, store_new) (ap (λ s. e.storage.view s j) kept ∙ stored j),
        )
  ]

  device_id_own : (c : Controller e) (id : String) → (id == "") ≡ false → (device_id e c id).1 ≡ id
  unfolding device_id
  device_id_own c id given = rw given

  abbrev pub AddOutcome :
      Controller e → ℕ → Device → Controller e × Result CatalogError String → Type 0
  AddOutcome c now d (c', r) =
      ((id : String) × (d' : Device) × (r ≡ ok id) × Added now d c c' id d')
      ⊎ ((x : CatalogError) × (r ≡ err x) × Unchanged c c')

  pub view-Frame : (c c' : Controller e) → Frame e c c' → (j : String) → view e c' j ≡ view e c j
  view-Frame c c' p j = ap (λ (y : Controller e). view e y j) p

  -- The outcome of the last part, told of the controller before the ids were generated.
  outcome_after :
      (c c'' : Controller e) (now : ℕ) (d : Device) (id : String) (resources : List Resource)
      → Frame e c c''
      → ((d.id == "") ≡ false → id ≡ d.id)
      → (c' : Controller e) → Frame e c c'
      → Holds (resource_url e c') (url_of e c' "devices" id) d.resources resources
      → let d' : Device = record (stamp e c' now id d) { resources = resources } in
        StoreOutcome c'' d' → AddOutcome c now d (store_new e c'' d')
  unfolding stamp
  outcome_after c c'' now d id resources framed own c' made holds (inr (x, failed, same)) =
      let there = Frame-Unchanged c c'' framed in
      inr (
        x,
        failed,
        record {
          views = λ j. same.views j ∙ there.views j;
          rids = same.rids ∙ there.rids;
          exps = same.exps ∙ there.exps;
          location = same.location ∙ there.location;
        },
      )
  outcome_after c c'' now d id resources framed own c' made holds (inl (done, new, stored)) =
      let d' : Device = record (stamp e c' now id d) { resources = resources } in
      inl (
        id,
        d',
        done,
        record {
          free = sym (view-Frame c c'' framed id) ∙ new;
          views =
              λ j. stored j ∙ ap (λ o. if id == j then some d' else o) (view-Frame c c'' framed j);
          keyed = refl;
          own = own;
          fields = (refl, refl, refl, refl);
          times = (refl, refl, refl);
          located = ap (λ (y : Controller e). url_of e y "devices" id) made;
          resources = Frame-Holds e c c' d'.url d.resources resources made holds;
        },
      )

  add_valid_outcome :
      (c : Controller e) (now : ℕ) (d : Device) → AddOutcome c now d (add_valid e c now d)
  unfolding add_valid
  add_valid_outcome c now d =
      let (c', id) = device_id e c d.id in
      let d' = stamp e c' now id d in
      let (c'', placed) = add_resources e c' d'.url d.resources in
      let framed =
        Frame-trans e c c' c'' (Frame-device_id e c d.id)
          (Frame-add_resources e c' d'.url d.resources) in
      elim (Result-cases placed) [
        | inr (x, refused) ↦ rw (refused, add_valid) (inr (x, refl, Frame-Unchanged c c'' framed))
        | inl (resources, accepted) ↦
            let d'' : Device = record d' { resources = sort resources } in
            rw (accepted, add_valid)
              (outcome_after c c'' now d id (sort resources) framed (device_id_own c d.id) c'
                (Frame-device_id e c d.id)
                (sort-Holds resources
                  (add_resources-Placed e c' d'.url d.resources resources accepted))
                (store_new_outcome c'' d'' (expiry-IsDated now d'' (unfold stamp in refl))))
      ]

  -- add either stores the registration as one new device, under an id that was free, its own
  -- unless it is empty, with the times of the call, its URL and the resources of the registration,
  -- or fails and changes no stored device and no index. Each stored resource is a registered one,
  -- under its own id unless that is empty, with its URL, the type "Resource" and the URL of the
  -- device, and the list is sorted by the ids.
  pub add_outcome : (c : Controller e) (now : ℕ) (d : Device) → AddOutcome c now d (add e c now d)
  unfolding add
  add_outcome c now d = elim (Result-cases (validate e.url_error d)) [
    | inr (m, invalid) ↦
        rw (invalid, add)
          (inr (
            bad_request m,
            refl,
            record { views = λ j. refl; rids = refl; exps = refl; location = refl },
          ))
    | inl (_, valid) ↦ rw (valid, add) (add_valid_outcome c now d)
  ]
