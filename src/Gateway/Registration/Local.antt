-- ===== src/Gateway/Registration/Local.antt =====
-- The registration of the gateway's devices in its own catalog: registerInLocalCatalog of
-- src/linksmart.eu/lc/core/cmd/device-gateway/registration.go.
use lslc_core.Common.{
  ℕ, suc, String, true, false, ◌≡◌, refl, sym, ap, ◌∙◌, inl, inr, List, [], ◌∷◌, Result, ok, err,
  In, ◌==◌, eqb, subst, Result-cases, result_map, map,
}
use lslc_core.Resource.{Device, CatalogError, not_found, conflict, bad_request, other, panicked}
use lslc_core.Resource.State.{Env, Controller}
use lslc_core.Resource.Controller.{add, update, clean_expired}
use lslc_core.Resource.Controller.Run.{
  Call, create, replace, tick, is_ok, run, step, step-IsIndexed,
}
use lslc_core.Resource.Controller.Invariant.{add-IsIndexed, update-IsIndexed}
use lslc_core.Resource.Indices.Sound.{IsIndexed, view}
use lslc_core.Resource.Registry.{Allowed}
use lslc_core.Resource.Registry.Refines.{add-Allowed, update-Allowed, tick-Allowed}
use lslc_core.Resource.Registry.Permanent.{
  IsPermanent, IsPermanent-stays, create-IsPermanent, replace-IsPermanent,
}
use lslc_core.Keepalive.{register}
use lslc_core.Keepalive.Local.{local_client}
use lslc_core.Gateway.{Config, Device as ConfiguredDevice}
use lslc_core.Gateway.Registration.{configure_devices, configure_device}

-- What is configured is among what is registered.
In-map :
    (config : Config) (d : ConfiguredDevice) (ds : List ConfiguredDevice)
    → In d ds
    → In (configure_device config d) (map (configure_device config) ds)
In-map config d [] i = elim i [ ]
In-map config d (q ∷ ds) (inl e) = inl (ap (configure_device config) e)
In-map config d (q ∷ ds) (inr j) = inr (In-map config d ds j)

module _ (e : Env) where
  -- RegisterDevice with the local client.
  unfoldable pub register_device :
      ℕ → ℕ → Device → Controller e → Controller e × Result CatalogError (Unit {0})
  unfolding local_client register
  register_device t u d c = register (local_client e t u d) c

  -- registerInLocalCatalog; `clock i` is the time of the call with the number `i`.
  unfoldable pub register_in_local_catalog :
      (ℕ → ℕ) → ℕ → List Device → Controller e → Controller e × Result CatalogError (Unit {0})
  unfolding register_device register local_client
  register_in_local_catalog clock i [] c = (c, ok tt)
  register_in_local_catalog clock i (d ∷ ds) c =
      let (c', r) = register_device (clock i) (clock (suc i)) (record d { ttl = 0 }) c in
      elim r [ err x ↦ (c', err x) | ok _ ↦ register_in_local_catalog clock (suc (suc i)) ds c' ]

  -- What a registration of a device without a TTL does.
  record Registers (d : Device) (c c' : Controller e) (r : Result CatalogError (Unit {0}))
      : Type 1 where
    sound : IsIndexed e c'
    keeps : (id : String) → IsPermanent (view e c) id → IsPermanent (view e c') id
    stores : r ≡ ok tt → (d.id == "") ≡ false → IsPermanent (view e c') d.id

  -- A registration that only refuses.
  refuses :
      (d : Device) (c c' : Controller e) (x : CatalogError)
      → IsIndexed e c'
      → ((id : String) → IsPermanent (view e c) id → IsPermanent (view e c') id)
      → Registers d c c' (err x)
  refuses d c c' x sound keeps = record {
    sound = sound;
    keeps = keeps;
    stores = λ h named. absurd cc;
  }

  add-Registers :
      (u : ℕ) (d : Device) (c : Controller e)
      → IsIndexed e c
      → eqb d.ttl 0 ≡ true
      → Registers d c (add e c u d).0 (result_map (λ id. tt) (add e c u d).1)
  add-Registers u d c i untimed = record {
    sound = add-IsIndexed e c u d i;
    keeps = λ id p. IsPermanent-stays id (add-Allowed e c u d) untimed p;
    stores = λ h named. elim (Result-cases (add e c u d).1) [
      | inl (id, good) ↦
          create-IsPermanent u d
            (subst
              (λ (r : Result CatalogError String).
                Allowed (view e c) (create u d) (is_ok r) (view e (add e c u d).0))
              good (add-Allowed e c u d))
            untimed named
      | inr (x, bad) ↦
          let no_way : ◌≡◌ {A = Result CatalogError (Unit {0})} (err x) (ok tt) =
            sym (ap (result_map (λ id. tt)) bad) ∙ h in
          absurd cc
    ];
  }

  register_device-Registers :
      (t u : ℕ) (d : Device) (c : Controller e)
      → IsIndexed e c
      → eqb d.ttl 0 ≡ true
      → Registers d c (register_device t u d c).0 (register_device t u d c).1
  unfolding register_device register local_client
  register_device-Registers t u d c i untimed =
      let c1 = (update e c t d.id d).0 in
      let i1 = update-IsIndexed e c t d.id d i in
      let allowed = update-Allowed e c t d.id d i in
      let keeps1 : (id : String) → IsPermanent (view e c) id → IsPermanent (view e c1) id =
        λ id p. IsPermanent-stays id allowed untimed p in
      elim (Result-cases (update e c t d.id d).1) [
        | inl (_, good) ↦
            rw (good, register_device, register, local_client)
              (record {
                sound = i1;
                keeps = keeps1;
                stores = λ h named.
                    replace-IsPermanent t d.id d
                      (subst
                        (λ (r : Result CatalogError (Unit {0})).
                          Allowed (view e c) (replace t d.id d) (is_ok r) (view e c1))
                        good allowed)
                      untimed;
              })
        | inr (not_found m, failed) ↦
            let a = add-Registers u d c1 i1 untimed in
            rw (failed, register_device, register, local_client)
              (record {
                sound = a.sound;
                keeps = λ id p. a.keeps id (keeps1 id p);
                stores = a.stores;
              })
        | inr (conflict m, failed) ↦
            rw (failed, register_device, register, local_client)
              (refuses d c c1 (conflict m) i1 keeps1)
        | inr (bad_request m, failed) ↦
            rw (failed, register_device, register, local_client)
              (refuses d c c1 (bad_request m) i1 keeps1)
        | inr (other m, failed) ↦
            rw (failed, register_device, register, local_client)
              (refuses d c c1 (other m) i1 keeps1)
        | inr (panicked m, failed) ↦
            rw (failed, register_device, register, local_client)
              (refuses d c c1 (panicked m) i1 keeps1)
      ]

  -- The registrations keep the devices without a TTL, and the indices sound.
  registrations_keep :
      (clock : ℕ → ℕ) (i : ℕ) (ds : List Device) (c : Controller e)
      → IsIndexed e c
      → let c' = (register_in_local_catalog clock i ds c).0 in
        IsIndexed e c' × ((id : String) → IsPermanent (view e c) id → IsPermanent (view e c') id)
  unfolding register_in_local_catalog
  registrations_keep clock i [] c x = (x, λ id p. p)
  registrations_keep clock i (d ∷ ds) c x =
      let d0 : Device = record d { ttl = 0 } in
      let (c1, r) = register_device (clock i) (clock (suc i)) d0 c in
      let a = register_device-Registers (clock i) (clock (suc i)) d0 c x refl in
      let (x', keeps) = registrations_keep clock (suc (suc i)) ds c1 a.sound in
      elim (Result-cases r) [
        | inr (m, failed) ↦ rw (failed, register_in_local_catalog) (a.sound, a.keeps)
        | inl (_, good) ↦ rw (good, register_in_local_catalog) (x', λ id p. keeps id (a.keeps id p))
      ]

  -- Every device of a registration that succeeds is stored.
  registrations_store :
      (clock : ℕ → ℕ) (i : ℕ) (ds : List Device) (c : Controller e) (d : Device)
      → IsIndexed e c
      → (register_in_local_catalog clock i ds c).1 ≡ ok tt
      → In d ds
      → (d.id == "") ≡ false
      → IsPermanent (view e (register_in_local_catalog clock i ds c).0) d.id
  unfolding register_in_local_catalog
  registrations_store clock i [] c d x done there named = elim there [ ]
  registrations_store clock i (q ∷ ds) c d x done there named =
      let q0 : Device = record q { ttl = 0 } in
      let (c1, r) = register_device (clock i) (clock (suc i)) q0 c in
      let a = register_device-Registers (clock i) (clock (suc i)) q0 c x refl in
      let (x', keeps) = registrations_keep clock (suc (suc i)) ds c1 a.sound in
      elim (Result-cases r) [
        | inr (m, failed) ↦
            let no_way : ◌≡◌ {A = Result CatalogError (Unit {0})} (err m) (ok tt) =
              rw (failed, register_in_local_catalog) at done in
            absurd cc
        | inl (_, good) ↦
            rw (good, register_in_local_catalog)
              (elim there [
                | inl same ↦
                    let same_id = ap (λ (y : Device). y.id) same in
                    keeps d.id (
                      subst (IsPermanent (view e c1)) (sym same_id)
                        (a.stores good (ap (λ s. s == "") (sym same_id) ∙ named)))
                | inr later ↦
                    registrations_store clock (suc (suc i)) ds c1 d a.sound
                      (rw (good, register_in_local_catalog) at done) later named
              ])
      ]

  -- Any ticks of cleanExpired.
  abbrev pub ticks : List ℕ → List Call
  ticks l = map tick l

  ticks_keep :
      (l : List ℕ) (c : Controller e) (id : String)
      → IsIndexed e c
      → IsPermanent (view e c) id
      → IsPermanent (view e (run e c (ticks l))) id
  unfolding run step
  ticks_keep [] c id x p = p
  ticks_keep (t ∷ l) c id x p =
      ticks_keep l (clean_expired e c t) id (step-IsIndexed e c (tick t) x)
        (IsPermanent-stays id (tick-Allowed e c t x) tt p)

  -- If the gateway registers its configured devices in its own catalog without an error, over sound
  -- indices, then after any ticks of cleanExpired each configured device that has a name is still
  -- stored under it, without a TTL.
  pub configured_devices_stay :
      (config : Config) (clock : ℕ → ℕ) (c : Controller e) (d : ConfiguredDevice) (l : List ℕ)
      → IsIndexed e c
      → (register_in_local_catalog clock 0 (configure_devices config) c).1 ≡ ok tt
      → In d config.devices
      → (d.name == "") ≡ false
      → let c' = (register_in_local_catalog clock 0 (configure_devices config) c).0 in
        IsPermanent (view e (run e c' (ticks l))) d.name
  unfolding configure_devices configure_device
  configured_devices_stay config clock c d l x done there named =
      let ds = configure_devices config in
      let (x', keeps) = registrations_keep clock 0 ds c x in
      ticks_keep l (register_in_local_catalog clock 0 ds c).0 d.name x' (
        registrations_store clock 0 ds c (configure_device config d) x done
          (In-map config d config.devices there) named)
