-- ===== src/Resource/Controller/Frame.antt =====
-- The generation of ids changes nothing but the counter.
use lslc_core.Common.{
  String, ◌≡◌, refl, ap, ◌∙◌, List, [], ◌∷◌, ◌==◌, Bool-cases, Option-cases, Result-cases, inl, inr,
}
use lslc_core.Resource.{Resource}
use lslc_core.Resource.State.{Env, Controller, new_device_urn, new_resource_urn, rid_key}
use lslc_core.Resource.Controller.{resource_id, add_resources, device_id, update_resources}

module _ (e : Env) where
  abbrev pub Frame : Controller e → Controller e → Type 0
  Frame c c' = c' ≡ record c { counter = c'.counter }

  pub Frame-trans : (c c' c'' : Controller e) → Frame c c' → Frame c' c'' → Frame c c''
  Frame-trans c c' c'' p q = q ∙ ap (λ (x : Controller e). record x { counter = c''.counter }) p

  pub Frame-device_id : (c : Controller e) (id : String) → Frame c (device_id e c id).0
  unfolding device_id new_device_urn
  Frame-device_id c id = elim (Bool-cases (id == "")) [
    | inl empty ↦ rw empty
    | inr given ↦ rw given
  ]

  pub Frame-resource_id : (c : Controller e) (id : String) → Frame c (resource_id e c id).0
  unfolding resource_id new_resource_urn
  Frame-resource_id c id = elim (Bool-cases (id == "")) [
    | inl empty ↦ rw empty
    | inr given ↦ elim (Option-cases (e.rid_tree.find (rid_key e id) c.rid_did)) [
      | inl unused ↦ rw (given, unused)
      | inr (m, used) ↦ rw (given, used)
    ]
  ]

  pub Frame-add_resources :
      (c : Controller e) (url : String) (rs : List Resource) → Frame c (add_resources e c url rs).0
  unfolding add_resources
  Frame-add_resources c url [] = refl
  Frame-add_resources c url (r ∷ rs) =
      let (c', given) = resource_id e c r.id in
      let here = Frame-resource_id c r.id in
      elim (Result-cases given) [
        | inr (x, refused) ↦ rw (refused, add_resources) here
        | inl (id, accepted) ↦
            rw (accepted, add_resources)
              (Frame-trans c c' (add_resources e c' url rs).0 here (Frame-add_resources c' url rs))
      ]

  pub Frame-update_resources :
      (c : Controller e) (url : String) (rs : List Resource)
      → Frame c (update_resources e c url rs).0
  unfolding update_resources new_resource_urn
  Frame-update_resources c url [] = refl
  Frame-update_resources c url (r ∷ rs) = elim (Bool-cases (r.id == "")) [
    | inl empty ↦
        let c' = (new_resource_urn e c).0 in
        let here : Frame c c' = refl in
        rw (empty, update_resources)
          (Frame-trans c c' (update_resources e c' url rs).0 here
            (Frame-update_resources c' url rs))
    | inr given ↦ rw (given, update_resources) (Frame-update_resources c url rs)
  ]
