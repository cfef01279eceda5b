-- ===== src/Resource/Controller/Expired.antt =====
-- What a tick of cleanExpired removes, and which devices it will never remove.
use lslc_core.Common.{
  ℕ, ◌≤◌, ◌<◌, String, true, false, not, ◌≡◌, refl, ap, ◌∙◌, subst, List, [], ◌∷◌, some, ◌==◌,
  eq_iff, arith, leb, leb→le, eqb, Bool-cases, Option-cases, Result-cases, inl, inr, ◌⊎◌, In,
  In-keep,
}
use lslc_core.Tree.Nodes.{Map}
use lslc_core.Resource.{Device}
use lslc_core.Resource.State.{Env, Controller, remove_indices}
use lslc_core.Resource.Controller.{delete, expired_list, expire_all, clean_expired}
use lslc_core.Resource.Controller.Changes.{delete_outcome}
use lslc_core.Resource.Indices.Expiry.{node_of, items-remove_expiry, items-remove_expiry-none}
use lslc_core.Resource.Indices.Sound.{IsIndexed, view}

In-expired_list :
    (now : ℕ) (l : List (Map ℕ)) (m : Map ℕ) → In m (expired_list now l) → In m l × (m.key ≤ now)
unfolding expired_list
In-expired_list now [] m i = elim i [ ]
In-expired_list now (n ∷ l) m i = elim (Bool-cases (leb n.key now)) [
  | inr late ↦ let bad : ⊥ = rw late at i in absurd bad
  | inl due ↦ elim (rw due at i) [
    | inl e ↦ (inl e, leb→le m.key now (rw e due))
    | inr j ↦ let (there, past) = In-expired_list now l m j in (inr there, past)
  ]
]

module _ (e : Env) where
  abbrev nodes : Controller e → List (Map ℕ)
  nodes c = e.exp_tree.items c.exp_did

  -- No node of the expiry index is of the device.
  abbrev pub Untimed : String → Controller e → Type 0
  Untimed id c = (m : Map ℕ) → In m (nodes c) → (m.value == id) ≡ false

  keeps_others :
      (c : Controller e) (i id : String)
      → (i == id) ≡ false
      → view e (delete e c i).0 id ≡ view e c id
  keeps_others c i id differs = elim (delete_outcome e c i) [
    | inl (done, was, views) ↦ views id ∙ rw differs
    | inr (x, failed, same) ↦ same.views id
  ]

  expire_all_keeps :
      (c : Controller e) (ms : List (Map ℕ)) (id : String)
      → ((m : Map ℕ) → In m ms → (m.value == id) ≡ false)
      → view e (expire_all e c ms) id ≡ view e c id
  unfolding expire_all
  expire_all_keeps c [] id h = refl
  expire_all_keeps c (m ∷ ms) id h =
      let (c', r) = delete e c m.value in
      let here = keeps_others c m.value id (h m (inl refl)) in
      elim (Result-cases r) [
        | inr (x, failed) ↦ rw (failed, expire_all) here
        | inl (_, done) ↦
            rw (done, expire_all) (expire_all_keeps c' ms id (λ n i. h n (inr i)) ∙ here)
      ]

  -- A device is not due at a time if it has no TTL or expires later.
  abbrev pub NotDue : ℕ → Device → Type 0
  NotDue now d = (eqb d.ttl 0 ≡ true) ⊎ ((at : ℕ) × (d.expires ≡ some at) × (now < at))

  -- Over sound indices, a tick leaves a stored device as it is if the device has no TTL or expires
  -- later than the tick.
  pub clean_expired_keeps :
      (c : Controller e) (now : ℕ) (id : String) (d : Device)
      → IsIndexed e c
      → view e c id ≡ some d
      → NotDue now d
      → view e (clean_expired e c now) id ≡ some d
  unfolding clean_expired
  clean_expired_keeps c now id d x there fresh =
      expire_all_keeps c (expired_list now (nodes c)) id (λ m i.
        let (listed, past) = In-expired_list now (nodes c) m i in
        let (d', stored, at, has_ttl) = x.timed m listed in
        elim (Bool-cases (m.value == id)) [
          | inr differs ↦ differs
          | inl same ↦
              let one : d' ≡ d = cc (ap (view e c) ((eq_iff m.value id).0 same), stored, there) in
              let at' : d.expires ≡ some m.key =
                subst (λ (y : Device). y.expires ≡ some m.key) one at in
              let has_ttl' : eqb d.ttl 0 ≡ false =
                subst (λ (y : Device). eqb y.ttl 0 ≡ false) one has_ttl in
              elim fresh [
                | inl forever ↦ cc
                | inr (later, expires, lt) ↦ let tie : later ≡ m.key = cc in absurd (omega arith)
              ]
        ])
      ∙ there

  nodes-remove_indices :
      (c : Controller e) (old : Device) (m : Map ℕ)
      → In m (nodes (remove_indices e c old))
      → In m (nodes c)
  unfolding remove_indices
  nodes-remove_indices c old m i = elim (Bool-cases (eqb old.ttl 0)) [
    | inl forever ↦ rw forever at i
    | inr timed ↦ elim (Option-cases (node_of e old.id c.exp_did)) [
      | inl missing ↦ rw (timed, items-remove_expiry-none e old.id c.exp_did missing) at i
      | inr (n, found) ↦
          (In-keep (λ (y : Map ℕ). not (eqb n.key y.key)) (nodes c) m
            (rw (timed, items-remove_expiry e old.id c.exp_did n found) at i)).0
    ]
  ]

  nodes-delete :
      (c : Controller e) (i : String) (m : Map ℕ) → In m (nodes (delete e c i).0) → In m (nodes c)
  unfolding delete
  nodes-delete c i m h = elim (Result-cases (e.storage.get i c.storage)) [
    | inr (x, missing) ↦ rw (missing, delete) at h
    | inl (old, found) ↦ elim (Result-cases (e.storage.delete i c.storage).1) [
      | inr (x, failed) ↦ rw (found, failed, delete) at h
      | inl (_, done) ↦
          let c' : Controller e = record c { storage = (e.storage.delete i c.storage).0 } in
          nodes-remove_indices c' old m (rw (found, done, delete) at h)
    ]
  ]

  nodes-expire_all :
      (c : Controller e) (ms : List (Map ℕ)) (m : Map ℕ)
      → In m (nodes (expire_all e c ms))
      → In m (nodes c)
  unfolding expire_all
  nodes-expire_all c [] m h = h
  nodes-expire_all c (n ∷ ms) m h =
      let (c', r) = delete e c n.value in
      elim (Result-cases r) [
        | inr (x, failed) ↦ nodes-delete c n.value m (rw (failed, expire_all) at h)
        | inl (_, done) ↦
            nodes-delete c n.value m (nodes-expire_all c' ms m (rw (done, expire_all) at h))
      ]

  -- The ticks at some times, one after the other.
  abbrev pub ticks : Controller e → List ℕ → Controller e
  ticks c [] = c
  ticks c (now ∷ nows) = ticks (clean_expired e c now) nows

  clean_expired-Untimed :
      (c : Controller e) (now : ℕ) (id : String)
      → Untimed id c
      → Untimed id (clean_expired e c now) × (view e (clean_expired e c now) id ≡ view e c id)
  unfolding clean_expired
  clean_expired-Untimed c now id h = (
    λ m i. h m (nodes-expire_all c (expired_list now (nodes c)) m i),
    expire_all_keeps c (expired_list now (nodes c)) id
        (λ m i. h m (In-expired_list now (nodes c) m i).0),
  )

  -- What is stored under an id of which the expiry index has no node stays the same after any
  -- ticks, however late.
  pub Untimed-stays :
      (c : Controller e) (nows : List ℕ) (id : String)
      → Untimed id c
      → view e (ticks c nows) id ≡ view e c id
  Untimed-stays c [] id h = refl
  Untimed-stays c (now ∷ nows) id h =
      let (still, same) = clean_expired-Untimed c now id h in
      Untimed-stays (clean_expired e c now) nows id still ∙ same
