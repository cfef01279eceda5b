-- ===== src/Resource/Controller/Changes.antt =====
-- What update and delete do to the stored devices, on every branch.
use lslc_core.Common.{
  ℕ, String, ◌≡◌, refl, ap, sym, subst, ◌∙◌, List, some, Result, ok, err, if◌then◌else◌, ◌==◌,
  Result-cases, inl, inr, ◌⊎◌,
}
use lslc_core.Resource.{Device, Resource, CatalogError, validate, bad_request}
use lslc_core.Resource.State.{Env, Controller, remove_indices}
use lslc_core.Resource.Controller.{
  update, update_stored, update_resources, refresh, store_update, check_unique, delete, expiry,
}
use lslc_core.Resource.Controller.Frame.{Frame, Frame-update_resources}
use lslc_core.Resource.Controller.Effects.{
  Unchanged, Frame-Unchanged, storage-add_indices, expiry-IsDated, view-Frame,
}
use lslc_core.Resource.Controller.Placement.{
  Holds, resource_url, sort-Holds, update_resources-Placed,
}
use lslc_core.Resource.Sorting.{sort}
use lslc_core.Resource.Indices.Sound.{without, with_device, IsDated, IsIndexed, view}

module _ (e : Env) where
  -- The stored device `old` became `d'`: its id, URL and creation time stay, and the registration
  -- `d` gives the rest, with its resources. No other device is changed.
  pub record Updated (now : ℕ) (id : String) (d : Device) (c c' : Controller e) (old d' : Device)
      : Type 0 where
    pub was : view e c id ≡ some old
    pub views : (j : String) → view e c' j ≡ with_device id d' (view e c) j
    pub kept : (d'.id ≡ old.id) × (d'.url ≡ old.url) × (d'.created ≡ old.created)
    pub fields :
        (d'.name ≡ d.name)
        × (d'.meta ≡ d.meta)
        × (d'.description ≡ d.description)
        × (d'.ttl ≡ d.ttl)
    pub times : (d'.updated ≡ now) × (d'.expires ≡ expiry now d.ttl)
    pub resources : Holds (resource_url e c) old.url d.resources d'.resources

  abbrev pub UpdateOutcome :
      Controller e → ℕ → String → Device → Controller e × Result CatalogError (Unit {0}) → Type 0
  UpdateOutcome c now id d (c', r) =
      ((r ≡ ok tt) × (old : Device) × (d' : Device) × Updated now id d c c' old d')
      ⊎ ((x : CatalogError) × (r ≡ err x) × Unchanged e c c')

  nothing : (c : Controller e) → Unchanged e c c
  nothing c = record { views = λ j. refl; rids = refl; exps = refl; location = refl }

  storage-remove_indices :
      (c : Controller e) (old : Device) → (remove_indices e c old).storage ≡ c.storage
  unfolding remove_indices
  storage-remove_indices c old = refl

  store_update_outcome :
      (c : Controller e) (id : String) (old d : Device)
      → view e c id ≡ some old
      → d.id ≡ id
      → IsDated d
      → (((store_update e c id old d).1 ≡ ok tt)
          × ((j : String) → view e (store_update e c id old d).0 j ≡ with_device id d (view e c) j))
        ⊎ ((x : CatalogError) × ((store_update e c id old d).1 ≡ err x)
            × Unchanged e c (store_update e c id old d).0)
  unfolding store_update
  store_update_outcome c id old d was same date =
      elim (Result-cases (e.storage.update id d c.storage).1) [
        | inr (x, failed) ↦ inr (
          x,
          rw (failed, store_update),
          rw (failed, store_update)
              (record {
                views = e.storage.update_err id d c.storage x failed;
                rids = refl;
                exps = refl;
                location = refl;
              }),
        )
        | inl (_, done) ↦
            let c' : Controller e = record c { storage = (e.storage.update id d c.storage).0 } in
            let (kept, indexed) = storage-add_indices e (remove_indices e c' old) d date in
            inl (
              rw (done, store_update) indexed,
              λ j.
                  rw (done, store_update)
                    (ap (λ s. e.storage.view s j) (kept ∙ storage-remove_indices c' old)
                      ∙ e.storage.update_ok id d old c.storage was same done j),
            )
      ]

  update_after :
      (c c' : Controller e) (now : ℕ) (id : String) (old d d' : Device)
      → Frame e c c'
      → view e c id ≡ some old
      → ((resources : List Resource) × (d' ≡ record (refresh e now old d) { resources = resources })
          × Holds (resource_url e c) old.url d.resources resources)
      → (((store_update e c' id old d').1 ≡ ok tt)
          × ((j : String)
              → view e (store_update e c' id old d').0 j ≡ with_device id d' (view e c') j))
        ⊎ ((x : CatalogError) × ((store_update e c' id old d').1 ≡ err x)
            × Unchanged e c' (store_update e c' id old d').0)
      → UpdateOutcome c now id d (store_update e c' id old d')
  unfolding refresh
  update_after c c' now id old d d' framed was (resources, made, holds) (inr (x, failed, same)) =
      let there = Frame-Unchanged e c c' framed in
      inr (
        x,
        failed,
        record {
          views = λ j. same.views j ∙ there.views j;
          rids = same.rids ∙ there.rids;
          exps = same.exps ∙ there.exps;
          location = same.location ∙ there.location;
        },
      )
  update_after c c' now id old d d' framed was (resources, made, holds) (inl (done, stored)) = inl (
    done,
    old,
    d',
    record {
      was = was;
      views = λ j. stored j ∙ ap (λ o. if id == j then some d' else o) (view-Frame e c c' framed j);
      kept = (
        ap (λ (y : Device). y.id) made,
        ap (λ (y : Device). y.url) made,
        ap (λ (y : Device). y.created) made,
      );
      fields = (
        ap (λ (y : Device). y.name) made,
        ap (λ (y : Device). y.meta) made,
        ap (λ (y : Device). y.description) made,
        ap (λ (y : Device). y.ttl) made,
      );
      times = (ap (λ (y : Device). y.updated) made, ap (λ (y : Device). y.expires) made);
      resources =
          subst (λ l. Holds (resource_url e c) old.url d.resources l)
            (sym (ap (λ (y : Device). y.resources) made)) holds;
    },
  )

  update_stored_outcome :
      (c : Controller e) (now : ℕ) (id : String) (old d : Device)
      → view e c id ≡ some old
      → old.id ≡ id
      → UpdateOutcome c now id d (update_stored e c now id old d)
  unfolding update_stored
  update_stored_outcome c now id old d was same =
      let (c', resources) = update_resources e c old.url d.resources in
      let framed = Frame-update_resources e c old.url d.resources in
      let d' : Device = record (refresh e now old d) { resources = sort resources } in
      update_after c c' now id old d d' framed was
        (
          sort resources,
          refl,
          sort-Holds resources (update_resources-Placed e c old.url d.resources),
        )
        (store_update_outcome c' id old d' (view-Frame e c c' framed id ∙ was)
          (unfold refresh in same) (expiry-IsDated e now d' (unfold refresh in refl)))

  -- Over sound indices, update either replaces the stored device by the registration, its id, URL
  -- and creation time kept, and changes no other device, or fails and changes no stored device and
  -- no index. The device that replaces it has the resources of the registration in place of the old
  -- ones: each is a registered one, under its own id unless that is empty, with its URL, the type
  -- "Resource" and the URL of the device, and the list is sorted by the ids.
  pub update_outcome :
      (c : Controller e) (now : ℕ) (id : String) (d : Device)
      → IsIndexed e c
      → UpdateOutcome c now id d (update e c now id d)
  unfolding update
  update_outcome c now id d x = elim (Result-cases (validate e.url_error d)) [
    | inr (m, invalid) ↦ rw (invalid, update) (inr (bad_request m, refl, nothing c))
    | inl (_, valid) ↦ elim (Result-cases (check_unique e c id d.resources)) [
      | inr (m, taken) ↦ rw (valid, taken, update) (inr (m, refl, nothing c))
      | inl (_, unique) ↦ elim (Result-cases (e.storage.get id c.storage)) [
        | inr (m, missing) ↦ rw (valid, unique, missing, update) (inr (m, refl, nothing c))
        | inl (old, found) ↦
            let was = e.storage.get_ok id c.storage old found in
            rw (valid, unique, found, update)
              (update_stored_outcome c now id old d was (x.keyed id old was))
      ]
    ]
  ]

  -- delete either removes the stored device with the id, and no other, or fails and changes no
  -- stored device and no index.
  pub delete_outcome :
      (c : Controller e) (id : String)
      → (((delete e c id).1 ≡ ok tt)
          × ((old : Device) × (view e c id ≡ some old))
          × ((j : String) → view e (delete e c id).0 j ≡ without id (view e c) j))
        ⊎ ((x : CatalogError) × ((delete e c id).1 ≡ err x) × Unchanged e c (delete e c id).0)
  unfolding delete
  delete_outcome c id = elim (Result-cases (e.storage.get id c.storage)) [
    | inr (m, missing) ↦ inr (m, rw (missing, delete), rw (missing, delete) (nothing c))
    | inl (old, found) ↦ elim (Result-cases (e.storage.delete id c.storage).1) [
      | inr (m, failed) ↦ inr (
        m,
        rw (found, failed, delete),
        rw (found, failed, delete)
            (record {
              views = e.storage.delete_err id c.storage m failed;
              rids = refl;
              exps = refl;
              location = refl;
            }),
      )
      | inl (_, done) ↦
          let c' : Controller e = record c { storage = (e.storage.delete id c.storage).0 } in
          inl (
            rw (found, done, delete),
            (old, e.storage.get_ok id c.storage old found),
            λ j.
                rw (found, done, delete)
                  (ap (λ s. e.storage.view s j) (storage-remove_indices c' old)
                    ∙ e.storage.delete_ok id c.storage done j),
          )
    ]
  ]
