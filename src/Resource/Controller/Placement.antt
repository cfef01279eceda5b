-- ===== src/Resource/Controller/Placement.antt =====
-- The resources that add and update store for a registration.
use mathlib.Core.List.{Perm}
use lslc_core.Common.{
  String, false, ◌≡◌, refl, ap, sym, subst, List, [], ◌∷◌, ok, ◌==◌, Bool-cases, Option-cases,
  Result-cases, inl, inr, result_map, ok_injective,
}
use lslc_core.Resource.{Resource}
use lslc_core.Resource.State.{Env, Controller, new_resource_urn, rid_key}
use lslc_core.Resource.Controller.{place, url_of, resource_id, add_resources, update_resources}
use lslc_core.Resource.Controller.Frame.{Frame, Frame-resource_id}
use lslc_core.Resource.Sorting.{sort, sort-Perm}

-- The stored resource `r'` is the registered resource `r`, under its own id unless that is empty,
-- with the URL of its id and the URL of its device.
pub record IsPlaced (location : String → String) (device_url : String) (r r' : Resource)
    : Type 0 where
  pub own : (r.id == "") ≡ false → r'.id ≡ r.id
  pub located : r'.url ≡ location r'.id
  pub typed : r'.type ≡ "Resource"
  pub attached : r'.device ≡ device_url
  pub name : r'.name ≡ r.name
  pub meta : r'.meta ≡ r.meta
  pub protocols : r'.protocols ≡ r.protocols
  pub representation : r'.representation ≡ r.representation

-- One stored resource for each registered one, in the same order.
pub data Placed (location : String → String) (device_url : String)
    : List Resource → List Resource → Type 0 where
  nothing : Placed location device_url [] []
  next :
      {r r' : Resource} {rs l : List Resource}
      → IsPlaced location device_url r r'
      → Placed location device_url rs l
      → Placed location device_url (r ∷ rs) (r' ∷ l)

-- The resources `stored` of a device are those of its registration, sorted by their ids.
abbrev pub Holds : (String → String) → String → List Resource → List Resource → Type 0
Holds location device_url rs stored =
    (l : List Resource) × Placed location device_url rs l × Perm l stored × (stored ≡ sort l)

pub sort-Holds :
    {location : String → String} {device_url : String} {rs : List Resource} (l : List Resource)
    → Placed location device_url rs l
    → Holds location device_url rs (sort l)
sort-Holds l p = (l, p, sort-Perm l, refl)

module _ (e : Env) where
  -- The URLs of the resources of a catalog.
  abbrev pub resource_url : Controller e → String → String
  resource_url c = url_of e c "resources"

  place-IsPlaced :
      (c : Controller e) (device_url id : String) (r : Resource)
      → ((r.id == "") ≡ false → id ≡ r.id)
      → IsPlaced (resource_url c) device_url r (place e c device_url id r)
  unfolding place
  place-IsPlaced c device_url id r own = record {
    own = own;
    located = refl;
    typed = refl;
    attached = refl;
    name = refl;
    meta = refl;
    protocols = refl;
    representation = refl;
  }

  -- Ids that are generated leave the URLs as they are.
  Frame-Placed :
      (c c' : Controller e) (device_url : String) (rs l : List Resource)
      → Frame e c c'
      → Placed (resource_url c') device_url rs l
      → Placed (resource_url c) device_url rs l
  Frame-Placed c c' device_url rs l p h =
      let same : resource_url c' ≡ resource_url c = ap (λ (y : Controller e). resource_url y) p in
      subst (λ u. Placed u device_url rs l) same h

  pub Frame-Holds :
      (c c' : Controller e) (device_url : String) (rs stored : List Resource)
      → Frame e c c'
      → Holds (resource_url c') device_url rs stored
      → Holds (resource_url c) device_url rs stored
  Frame-Holds c c' device_url rs stored p (l, h, perm, sorted) =
      (l, Frame-Placed c c' device_url rs l p h, perm, sorted)

  resource_id_own :
      (c : Controller e) (given id : String)
      → (resource_id e c given).1 ≡ ok id
      → (given == "") ≡ false
      → id ≡ given
  unfolding resource_id
  resource_id_own c given id h named =
      elim (Option-cases (e.rid_tree.find (rid_key e given) c.rid_did)) [
        | inl unused ↦ ok_injective (sym (rw (named, unused) at h))
        | inr (m, used) ↦ let bad : ⊥ = cc (rw (named, used) at h) in absurd bad
      ]

  pub add_resources-Placed :
      (c : Controller e) (device_url : String) (rs l : List Resource)
      → (add_resources e c device_url rs).1 ≡ ok l
      → Placed (resource_url c) device_url rs l
  unfolding add_resources
  add_resources-Placed c device_url [] l h =
      subst (λ l'. Placed (resource_url c) device_url [] l') (ok_injective h) nothing
  add_resources-Placed c device_url (r ∷ rs) l h =
      let (c', given) = resource_id e c r.id in
      elim (Result-cases given) [
        | inr (x, refused) ↦ let bad : ⊥ = cc (rw (refused, add_resources) at h) in absurd bad
        | inl (id, accepted) ↦ elim (Result-cases (add_resources e c' device_url rs).1) [
          | inr (x, refused) ↦
              let bad : ⊥ = cc (rw (accepted, refused, add_resources) at h) in absurd bad
          | inl (l', placed) ↦
              let made : place e c device_url id r ∷ l' ≡ l =
                ok_injective (rw (accepted, placed, add_resources, result_map) at h) in
              subst (λ (y : List Resource). Placed (resource_url c) device_url (r ∷ rs) y) made
                (next (place-IsPlaced c device_url id r (resource_id_own c r.id id accepted)) (
                  Frame-Placed c c' device_url rs l' (Frame-resource_id e c r.id)
                    (add_resources-Placed c' device_url rs l' placed)))
        ]
      ]

  pub update_resources-Placed :
      (c : Controller e) (device_url : String) (rs : List Resource)
      → Placed (resource_url c) device_url rs (update_resources e c device_url rs).1
  unfolding update_resources new_resource_urn
  update_resources-Placed c device_url [] = nothing
  update_resources-Placed c device_url (r ∷ rs) = elim (Bool-cases (r.id == "")) [
    | inl empty ↦
        let (c', id) = new_resource_urn e c in
        rw (empty, update_resources)
          (next (place-IsPlaced c device_url id r (λ named. absurd cc)) (
            Frame-Placed c c' device_url rs (update_resources e c' device_url rs).1 refl
              (update_resources-Placed c' device_url rs)))
    | inr given ↦
        rw (given, update_resources)
          (next (place-IsPlaced c device_url r.id r (λ named. refl))
            (update_resources-Placed c device_url rs))
  ]
