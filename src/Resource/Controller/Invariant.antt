-- ===== src/Resource/Controller/Invariant.antt =====
-- Every method of the controller keeps its secondary indices sound.
use lslc_core.Common.{
  ℕ, String, ◌≡◌, refl, ap, sym, ◌∙◌, subst, List, [], ◌∷◌, none, some, if◌then◌else◌, ◌==◌,
  eq_refl, Bool-cases, Result-cases, inl, inr,
}
use lslc_core.Common.Words.{add_seconds}
use lslc_core.Tree.Nodes.{Map}
use lslc_core.Resource.{Device, validate}
use lslc_core.Resource.State.{Env, Controller, add_indices, remove_indices}
use lslc_core.Resource.Controller.{
  add, add_valid, add_resources, device_id, stamp, store_new, update, update_stored,
  update_resources, refresh, store_update, check_unique, delete, expire_all, clean_expired, expiry,
}
use lslc_core.Resource.Controller.Frame.{
  Frame, Frame-device_id, Frame-add_resources, Frame-update_resources,
}
use lslc_core.Resource.Sorting.{sort}
use lslc_core.Resource.Indices.Sound.{
  View, without, with_device, IsDated, Indexed, Indexed-view, Indexed-remove, IsIndexed, view,
  Indexed-extend, add_indices-Indexed,
}

module _ (e : Env) where
  pub Frame-IsIndexed : (c c' : Controller e) → Frame e c c' → IsIndexed e c → IsIndexed e c'
  Frame-IsIndexed c c' p x = subst (λ (y : Controller e). IsIndexed e y) (sym p) x

  -- The result of addIndices after the storage has the device.
  indexed_after :
      (c : Controller e) (d : Device) {v : View}
      → Indexed e v c.rid_did c.exp_did
      → v d.id ≡ none
      → IsDated d
      → ((j : String) → view e c j ≡ with_device d.id d v j)
      → IsIndexed e (add_indices e c d).0
  indexed_after c d x new date stored =
      let z = Indexed-extend e x d.id d new refl date in
      let (_, same, y) = add_indices-Indexed e c d z (rw eq_refl) in
      Indexed-view e (λ j. ap (λ s. e.storage.view s j) same ∙ stored j) y

  store_new-IsIndexed :
      (c : Controller e) (d : Device) → IsIndexed e c → IsDated d → IsIndexed e (store_new e c d).0
  unfolding store_new
  store_new-IsIndexed c d x date = elim (Result-cases (e.storage.add d c.storage).1) [
    | inr (err_, failed) ↦
        rw (failed, store_new) (Indexed-view e (e.storage.add_err d c.storage err_ failed) x)
    | inl (_, done) ↦
        let (new, stored) = e.storage.add_ok d c.storage done in
        let c' : Controller e = record c { storage = (e.storage.add d c.storage).0 } in
        rw (done, store_new) (indexed_after c' d {v = view e c} x new date stored)
  ]

  expiry-IsDated : (now : ℕ) (d : Device) → d.expires ≡ expiry now d.ttl → IsDated d
  unfolding expiry
  expiry-IsDated now d h = λ timed. (add_seconds now d.ttl, h ∙ rw timed)

  add_valid-IsIndexed :
      (c : Controller e) (now : ℕ) (d : Device)
      → IsIndexed e c
      → IsIndexed e (add_valid e c now d).0
  unfolding add_valid
  add_valid-IsIndexed c now d x =
      let (c', id) = device_id e c d.id in
      let d' = stamp e c' now id d in
      let x' = Frame-IsIndexed c c' (Frame-device_id e c d.id) x in
      let (c'', placed) = add_resources e c' d'.url d.resources in
      let x'' = Frame-IsIndexed c' c'' (Frame-add_resources e c' d'.url d.resources) x' in
      elim (Result-cases placed) [
        | inr (_, refused) ↦ rw (refused, add_valid) x''
        | inl (resources, accepted) ↦
            rw (accepted, add_valid)
              (store_new-IsIndexed c'' (record d' { resources = sort resources }) x''
                (expiry-IsDated now (record d' { resources = sort resources })
                  (unfold stamp in refl)))
      ]

  pub add-IsIndexed :
      (c : Controller e) (now : ℕ) (d : Device) → IsIndexed e c → IsIndexed e (add e c now d).0
  unfolding add
  add-IsIndexed c now d x = elim (Result-cases (validate e.url_error d)) [
    | inr (m, invalid) ↦ rw (invalid, add) x
    | inl (_, valid) ↦ rw (valid, add) (add_valid-IsIndexed c now d x)
  ]

  -- removeIndices of a device that was stored.
  removed :
      (c : Controller e) (id : String) (old : Device) (v : View)
      → Indexed e v c.rid_did c.exp_did
      → v id ≡ some old
      → Indexed e (without id v) (remove_indices e c old).rid_did (remove_indices e c old).exp_did
  unfolding remove_indices
  removed c id old v x there =
      let same : old.id ≡ id = x.keyed id old there in rw same (Indexed-remove e x id old there)

  storage-remove_indices :
      (c : Controller e) (old : Device) (j : String)
      → view e (remove_indices e c old) j ≡ view e c j
  unfolding remove_indices
  storage-remove_indices c old j = refl

  replaced :
      (id : String) (d : Device) (v : View) (j : String)
      → d.id ≡ id
      → (if id == j then some d else v j) ≡ with_device d.id d (without id v) j
  replaced id d v j same =
      rw same (elim (Bool-cases (id == j)) [ inl here ↦ rw here | inr there ↦ rw there ])

  store_update-IsIndexed :
      (c : Controller e) (id : String) (old d : Device)
      → IsIndexed e c
      → view e c id ≡ some old
      → d.id ≡ id
      → IsDated d
      → IsIndexed e (store_update e c id old d).0
  unfolding store_update
  store_update-IsIndexed c id old d x there same date =
      elim (Result-cases (e.storage.update id d c.storage).1) [
        | inr (m, failed) ↦
            rw (failed, store_update)
              (Indexed-view e (e.storage.update_err id d c.storage m failed) x)
        | inl (_, done) ↦
            let c' : Controller e = record c { storage = (e.storage.update id d c.storage).0 } in
            rw (done, store_update)
              (indexed_after (remove_indices e c' old) d {v = without id (view e c)}
                (removed c' id old (view e c) x there) (rw (same, eq_refl)) date
                λ j.
                  storage-remove_indices c' old j
                  ∙ (e.storage.update_ok id d old c.storage there same done j
                      ∙ replaced id d (view e c) j same))
      ]

  -- The device that update stores.
  update_stored-IsIndexed :
      (c : Controller e) (now : ℕ) (id : String) (stored d : Device)
      → IsIndexed e c
      → view e c id ≡ some stored
      → IsIndexed e (update_stored e c now id stored d).0
  unfolding update_stored
  update_stored-IsIndexed c now id stored d x there =
      let (c', resources) = update_resources e c stored.url d.resources in
      let framed = Frame-update_resources e c stored.url d.resources in
      let x' = Frame-IsIndexed c c' framed x in
      let d' : Device = record (refresh e now stored d) { resources = sort resources } in
      store_update-IsIndexed c' id stored d' x'
        (ap (λ (y : Controller e). view e y id) framed ∙ there)
        (unfold refresh in (x.keyed id stored there))
        (expiry-IsDated now d' (unfold refresh in refl))

  pub update-IsIndexed :
      (c : Controller e) (now : ℕ) (id : String) (d : Device)
      → IsIndexed e c
      → IsIndexed e (update e c now id d).0
  unfolding update
  update-IsIndexed c now id d x = elim (Result-cases (validate e.url_error d)) [
    | inr (m, invalid) ↦ rw (invalid, update) x
    | inl (_, valid) ↦ elim (Result-cases (check_unique e c id d.resources)) [
      | inr (m, taken) ↦ rw (valid, taken, update) x
      | inl (_, unique) ↦ elim (Result-cases (e.storage.get id c.storage)) [
        | inr (m, missing) ↦ rw (valid, unique, missing, update) x
        | inl (stored, found) ↦
            rw (valid, unique, found, update)
              (update_stored-IsIndexed c now id stored d x
                (e.storage.get_ok id c.storage stored found))
      ]
    ]
  ]

  pub delete-IsIndexed :
      (c : Controller e) (id : String) → IsIndexed e c → IsIndexed e (delete e c id).0
  unfolding delete
  delete-IsIndexed c id x = elim (Result-cases (e.storage.get id c.storage)) [
    | inr (m, missing) ↦ rw (missing, delete) x
    | inl (old, found) ↦ elim (Result-cases (e.storage.delete id c.storage).1) [
      | inr (m, failed) ↦
          rw (found, failed, delete) (Indexed-view e (e.storage.delete_err id c.storage m failed) x)
      | inl (_, done) ↦
          let c' : Controller e = record c { storage = (e.storage.delete id c.storage).0 } in
          rw (found, done, delete)
            (Indexed-view e
              (λ j. storage-remove_indices c' old j ∙ e.storage.delete_ok id c.storage done j)
              (removed c' id old (view e c) x (e.storage.get_ok id c.storage old found)))
    ]
  ]

  expire_all-IsIndexed :
      (c : Controller e) (ms : List (Map ℕ)) → IsIndexed e c → IsIndexed e (expire_all e c ms)
  unfolding expire_all
  expire_all-IsIndexed c [] x = x
  expire_all-IsIndexed c (m ∷ ms) x =
      let (c', r) = delete e c m.value in
      let x' = delete-IsIndexed c m.value x in
      elim (Result-cases r) [
        | inr (_, failed) ↦ rw (failed, expire_all) x'
        | inl (_, done) ↦ rw (done, expire_all) (expire_all-IsIndexed c' ms x')
      ]

  pub clean_expired-IsIndexed :
      (c : Controller e) (now : ℕ) → IsIndexed e c → IsIndexed e (clean_expired e c now)
  unfolding clean_expired
  clean_expired-IsIndexed c now x = expire_all-IsIndexed c _ x
