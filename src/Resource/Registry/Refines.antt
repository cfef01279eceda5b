-- ===== src/Resource/Registry/Refines.antt =====
-- The controller does what the registry allows.
use lslc_core.Common.{
  ℕ, ◌<◌, String, true, ◌≡◌, refl, sym, subst, ◌∙◌, ◌⊎◌, inl, inr, List, [], ◌∷◌, none, some, ◌==◌,
  eqb, leb, leb→le, arith, Bool-cases, Option-cases, Result-cases,
}
use lslc_core.Tree.Nodes.{Map}
use lslc_core.Resource.{Device}
use lslc_core.Resource.State.{Env, Controller}
use lslc_core.Resource.Controller.{add, update, delete, clean_expired, expire_all, expired_list}
use lslc_core.Resource.Controller.Effects.{add_outcome}
use lslc_core.Resource.Controller.Changes.{update_outcome, delete_outcome}
use lslc_core.Resource.Controller.Expired.{clean_expired_keeps}
use lslc_core.Resource.Controller.Placement.{Holds, resource_url}
use lslc_core.Resource.Controller.Run.{
  Call, create, replace, erase, tick, step, run, succeeds, answers, is_ok, step-IsIndexed,
}
use lslc_core.Resource.Indices.Sound.{IsIndexed, view}
use lslc_core.Resource.Registry.{
  IsDue, Allowed, refused, created, replaced, erased, ticked, History, start, next_call,
}

module _ (e : Env) where
  pub add-Allowed :
      (c : Controller e) (now : ℕ) (d : Device)
      → Allowed (view e c) (create now d) (is_ok (add e c now d).1) (view e (add e c now d).0)
  add-Allowed c now d = elim (add_outcome e c now d) [
    | inr (x, failed, same) ↦ rw failed (refused same.views)
    | inl (id, d', good, a) ↦
        let (name, meta, description, ttl) = a.fields in
        rw good (
          created id d' a.free a.own a.keyed a.times.0
            (record {
              name = name;
              meta = meta;
              description = description;
              ttl = ttl;
              updated = a.times.1;
              expires = a.times.2;
              location = resource_url e c;
              resources = a.resources;
            })
            a.views)
  ]

  pub update-Allowed :
      (c : Controller e) (now : ℕ) (id : String) (d : Device)
      → IsIndexed e c
      → Allowed
          (view e c)
          (replace now id d)
          (is_ok (update e c now id d).1)
          (view e (update e c now id d).0)
  update-Allowed c now id d i = elim (update_outcome e c now id d i) [
    | inr (x, failed, same) ↦ rw failed (refused same.views)
    | inl (good, old, d', u) ↦
        let (name, meta, description, ttl) = u.fields in
        rw good (
          replaced old d' u.was u.kept.0 u.kept.1 u.kept.2
            (record {
              name = name;
              meta = meta;
              description = description;
              ttl = ttl;
              updated = u.times.0;
              expires = u.times.1;
              location = resource_url e c;
              resources =
                  subst (λ url. Holds (resource_url e c) url d.resources d'.resources)
                    (sym u.kept.1) u.resources;
            })
            u.views)
  ]

  delete-Allowed :
      (c : Controller e) (id : String)
      → Allowed (view e c) (erase id) (is_ok (delete e c id).1) (view e (delete e c id).0)
  delete-Allowed c id = elim (delete_outcome e c id) [
    | inr (x, failed, same) ↦ rw failed (refused same.views)
    | inl (good, (old, was), views) ↦ rw good (erased old was views)
  ]

  delete_or_keep :
      (c : Controller e) (id j : String)
      → (view e (delete e c id).0 j ≡ view e c j) ⊎ (view e (delete e c id).0 j ≡ none)
  delete_or_keep c id j = elim (delete_outcome e c id) [
    | inr (x, failed, same) ↦ inl (same.views j)
    | inl (good, was, views) ↦ elim (Bool-cases (id == j)) [
      | inl hit ↦ inr (views j ∙ rw hit refl)
      | inr miss ↦ inl (views j ∙ rw miss refl)
    ]
  ]

  -- A loop of deletions keeps a device or removes it.
  expire_or_keep :
      (c : Controller e) (ms : List (Map ℕ)) (j : String)
      → (view e (expire_all e c ms) j ≡ view e c j) ⊎ (view e (expire_all e c ms) j ≡ none)
  unfolding expire_all
  expire_or_keep c [] j = inl refl
  expire_or_keep c (m ∷ ms) j = elim (Result-cases (delete e c m.value).1) [
    | inr (x, failed) ↦ rw (failed, expire_all) (delete_or_keep c m.value j)
    | inl (_, done) ↦
        rw (done, expire_all)
          (elim (expire_or_keep (delete e c m.value).0 ms j) [
            | inr gone ↦ inr gone
            | inl kept ↦ elim (delete_or_keep c m.value j) [
              | inl same ↦ inl (kept ∙ same)
              | inr gone ↦ inr (kept ∙ gone)
            ]
          ])
  ]

  IsDue-cases :
      (c : Controller e) (now : ℕ) (j : String) (d : Device)
      → IsIndexed e c
      → view e c j ≡ some d
      → IsDue now d ⊎ (view e (clean_expired e c now) j ≡ some d)
  IsDue-cases c now j d i was = elim (Bool-cases (eqb d.ttl 0)) [
    | inl forever ↦ inr (clean_expired_keeps e c now j d i was (inl forever))
    | inr timed ↦
        let (at, expires) = i.dated j d was timed in
        elim (Bool-cases (leb at now)) [
          | inl past ↦
              inl (record { timed = timed; at = at; expires = expires; past = leb→le at now past })
          | inr late ↦
              let later : now < at = ground arith in
              inr (clean_expired_keeps e c now j d i was (inr (at, expires, later)))
        ]
  ]

  pub tick-Allowed :
      (c : Controller e) (now : ℕ)
      → IsIndexed e c
      → Allowed (view e c) (tick now) true (view e (clean_expired e c now))
  unfolding clean_expired
  tick-Allowed c now i = ticked (λ j.
      elim (expire_or_keep c (expired_list now (e.exp_tree.items c.exp_did)) j) [
        | inl kept ↦ inl kept
        | inr gone ↦ elim (Option-cases (view e c j)) [
          | inl never ↦ inl (gone ∙ sym never)
          | inr (d, was) ↦ elim (IsDue-cases c now j d i was) [
            | inl due ↦ inr (d, was, due, gone)
            | inr kept ↦ inl (unfold clean_expired in (kept ∙ sym was))
          ]
        ]
      ])

  step-Allowed :
      (c : Controller e) (x : Call)
      → IsIndexed e c
      → Allowed (view e c) x (succeeds e c x) (view e (step e c x))
  unfolding step succeeds
  step-Allowed c (create now d) i = add-Allowed c now d
  step-Allowed c (replace now id d) i = update-Allowed c now id d i
  step-Allowed c (erase id) i = delete-Allowed c id
  step-Allowed c (tick now) i = tick-Allowed c now i

  -- From a state whose indices are sound, the controller refines the registry: whatever calls are
  -- made, their answers and the devices stored in the end are those of a history that the registry
  -- allows. A refused call changes no device; a successful one makes its one change: a new or a replaced
  -- device has the name, meta data, description and TTL of the registration, the times of the call
  -- and, sorted by their ids, the resources of the registration, and no more. A tick removes devices
  -- with a TTL that are due, and no other.
  pub run_refines :
      (c : Controller e) (xs : List Call)
      → IsIndexed e c
      → History (view e c) xs (answers e c xs) (view e (run e c xs))
  unfolding run answers
  run_refines c [] i = start
  run_refines c (x ∷ xs) i =
      next_call (step-Allowed c x i) (run_refines (step e c x) xs (step-IsIndexed e c x i))
