-- ===== src/Resource/Indices/Start.antt =====
-- The controller of NewController over a storage without devices:
-- src/linksmart.eu/lc/core/catalog/resource/controller.go.
use Prim.Native.Nat.{min}
use lslc_core.Common.{
  ℕ, zero, suc, ◌+◌, ◌-◌, ◌*◌, ◌≤◌, ◌<◌, String, ◌≡◌, refl, ap, ◌∙◌, subst, List, [], ◌∷◌, none,
  some, Result, ok, In, In-append_left, In-append_right, In-append_cases, drop-drop, drop_beyond,
  sym, ◌⊎◌, length, take, drop, take-append-drop, leb, arith, Bool-cases, inl, inr,
}
use lslc_core.Common.Int.{pos}
use lslc_core.Resource.{Device, CatalogError}
use lslc_core.Resource.Store.{IsReliable}
use lslc_core.Resource.State.{Env, Controller, rid_key, add_indices}
use lslc_core.Resource.Indices.Sound.{
  View, Indexed, IsDated, IsIndexed, Indexed-view, add_indices-Indexed,
}
use lslc_core.Resource.Indices.Filled.{IsCovered, index_all-IsCovered}
use lslc_core.Resource.Reads.{index_all, init_from}
use lslc_core.Resource.Reads.Pages.{page_at}

module _ (e : Env) where
  -- The controller of NewController before its indices are filled.
  abbrev pub fresh : e.storage.State → String → ℕ → Controller e
  fresh s api_location now = record {
    storage = s;
    api_location = api_location;
    start_time = now;
    counter = 0;
    rid_did = e.rid_tree.empty;
    exp_did = e.exp_tree.empty;
  }

  -- NewController, but for the goroutine that it starts: initIndices over the pages from the first
  -- on, with the rounds that may be made.
  unfoldable pub new_controller :
      ℕ → e.storage.State → String → ℕ → Controller e × Result CatalogError (Unit {0})
  new_controller fuel s api_location now = init_from e fuel 1 (fresh s api_location now)

  -- Empty indices over a storage that stores no device are sound.
  pub fresh-IsIndexed :
      (s : e.storage.State) (api_location : String) (now : ℕ)
      → ((id : String) → e.storage.view s id ≡ none)
      → IsIndexed e (fresh s api_location now)
  fresh-IsIndexed s api_location now empty = record {
    keyed = λ id d h. let bad : ⊥ = cc (empty id) in absurd bad;
    dated = λ id d h. let bad : ⊥ = cc (empty id) in absurd bad;
    owned = λ rid did h. let bad : ⊥ = cc (e.rid_tree.find-empty (rid_key e rid)) in absurd bad;
    timed = λ m i. let bad : In m [] = rw e.exp_tree.items-empty at i in elim bad [ ];
  }

  module _ (s : e.storage.State) (reliable : IsReliable e.storage s) where
    abbrev all : List Device
    all = e.storage.devices s

    abbrev stored : View
    stored = e.storage.view s

    -- addIndices of stored devices, one after the other.
    index_all_lem :
        (ds : List Device) (c : Controller e)
        → Indexed e stored c.rid_did c.exp_did
        → ((d : Device) → In d ds → stored d.id ≡ some d)
        → let (c', r) = index_all e ds c in
          (r ≡ ok tt) × (c'.storage ≡ c.storage) × Indexed e stored c'.rid_did c'.exp_did
    unfolding index_all
    index_all_lem [] c x h = (refl, refl, x)
    index_all_lem (d ∷ ds) c x h =
        let (good, kept, y) = add_indices-Indexed e c d x (h d (inl refl)) in
        let (good', kept', z) = index_all_lem ds (add_indices e c d).0 y (λ d' i. h d' (inr i)) in
        rw (good, index_all) (good', kept' ∙ kept, z)

    In-page : (d : Device) (l o : ℕ) → In d (take l (drop o all)) → In d all
    In-page d l o i =
        let late : In d (drop o all) =
          subst (λ ds. In d ds) (take-append-drop l (drop o all))
            (In-append_left d (take l (drop o all)) (drop l (drop o all)) i) in
        subst (λ ds. In d ds) (take-append-drop o all)
          (In-append_right d (take o all) (drop o all) late)

    -- A device that the storage lists is in the indices.
    abbrev Covered : Controller e → Device → Type 0
    Covered c d = IsCovered e c.rid_did c.exp_did d

    -- What is left after a page is what is left from the next page on, and nothing after the last.
    after_page :
        (d : Device) (n : ℕ)
        → n * 100 ≤ length all
        → let l = min 100 (length all - n * 100) in
          In d (drop (n * 100) all)
          → In d (take l (drop (n * 100) all)) ⊎ In d (drop (suc n * 100) all)
    after_page d n m i =
        let o = n * 100 in
        let l = min 100 (length all - o) in
        elim (In-append_cases d (take l (drop o all)) (drop l (drop o all))
          (subst (λ ds. In d ds) (sym (take-append-drop l (drop o all))) i)) [
            | inl here ↦ inl here
            | inr later ↦
                let j : In d (drop (o + l) all) = subst (λ ds. In d ds) (drop-drop o l all) later in
                elim (Bool-cases (leb (suc n * 100) (length all))) [
                  | inl whole ↦
                      let next : o + l ≡ suc n * 100 = ground arith in
                      inr (subst (λ k. In d (drop k all)) next j)
                  | inr short ↦
                      let end_ : o + l ≡ length all = ground arith in
                      elim (subst (λ ds. In d ds)
                        (ap (λ k. drop k all) end_ ∙ drop_beyond (length all) all (omega arith))
                        j) [ ]
                ]
          ]

    init_from_lem :
        (fuel n : ℕ) (c : Controller e)
        → c.storage ≡ s
        → Indexed e stored c.rid_did c.exp_did
        → ((d : Device) → In d all → stored d.id ≡ some d)
        → n * 100 ≤ length all
        → length all < (n + fuel) * 100
        → let (c', r) = init_from e fuel (suc n) c in
          (r ≡ ok tt)
          × (c'.storage ≡ s)
          × Indexed e stored c'.rid_did c'.exp_did
          × ((d : Device) → Covered c d → Covered c' d)
          × ((d : Device) → In d (drop (n * 100) all) → Covered c' d)
    unfolding init_from
    init_from_lem zero n c p x h m k = absurd (omega arith)
    init_from_lem (suc fuel) n c p x h m k =
        let (r, listed, slice, end_, beyond) = page_at e.storage s reliable n m in
        let listed' : e.storage.list (pos (suc n)) (pos 100) c.storage ≡ ok r =
          ap (λ y. e.storage.list (pos (suc n)) (pos 100) y) p ∙ listed in
        let inside : (d : Device) → In d r.0 → stored d.id ≡ some d = λ d i.
          h d (
            In-page d (min 100 (length all - n * 100)) (n * 100) (subst (λ ds. In d ds) slice i)) in
        let (good, kept, y) = index_all_lem r.0 c x inside in
        let (later, here) = index_all-IsCovered e r.0 c (λ d i. x.dated d.id d (inside d i)) good in
        let page : (d : Device)
            → In d (take (min 100 (length all - n * 100)) (drop (n * 100) all))
            → Covered (index_all e r.0 c).0 d =
          λ d i. here d (subst (λ ds. In d ds) (sym slice) i) in
        elim (Bool-cases (leb r.1 (suc n * 100))) [
          | inl last ↦
              rw (listed', good, last, init_from)
                (
                  refl,
                  kept ∙ p,
                  y,
                  later,
                  λ d i. elim (after_page d n m i) [
                    | inl i' ↦ page d i'
                    | inr i' ↦
                        let none_left : drop (suc n * 100) all ≡ [] =
                          drop_beyond (suc n * 100) all (end_ last) in
                        elim (subst (λ ds. In d ds) none_left i') [ ]
                  ],
                )
          | inr more ↦
              let far : suc n * 100 < length all = beyond more in
              let (good', kept', z, later', here') =
                init_from_lem fuel (suc n) (index_all e r.0 c).0 (kept ∙ p) y h (omega arith)
                  (omega arith) in
              rw (listed', good, more, init_from)
                (
                  good',
                  kept',
                  z,
                  λ d w. later' d (later d w),
                  λ d i. elim (after_page d n m i) [
                    | inl i' ↦ later' d (page d i')
                    | inr i' ↦ here' d i'
                  ],
                )
        ]

    -- NewController over a storage that may hold devices: if the storage fails nowhere where it could
    -- succeed, every device that it lists is the one stored under its id, every device is stored under
    -- its own id, and those with a TTL have an expiry time, then the start succeeds with one round for
    -- each hundred devices and one more, and the storage is as it was. The indices that it fills are
    -- sound, and complete for the devices that the storage lists: every resource id of one leads to a
    -- device, and every one with a TTL has a node with its expiry time.
    pub new_controller-IsIndexed :
        (fuel : ℕ) (api_location : String) (now : ℕ)
        → ((id : String) (d : Device) → stored id ≡ some d → d.id ≡ id)
        → ((id : String) (d : Device) → stored id ≡ some d → IsDated d)
        → ((d : Device) → In d all → stored d.id ≡ some d)
        → length all < fuel * 100
        → ((new_controller fuel s api_location now).1 ≡ ok tt)
          × IsIndexed e (new_controller fuel s api_location now).0
          × ((new_controller fuel s api_location now).0.storage ≡ s)
          × ((d : Device)
              → In d all
              → IsCovered e
                  (new_controller fuel s api_location now).0.rid_did
                  (new_controller fuel s api_location now).0.exp_did
                  d)
    unfolding new_controller
    new_controller-IsIndexed fuel api_location now keyed dated listed k =
        let c = fresh s api_location now in
        let x : Indexed e stored c.rid_did c.exp_did = record {
          keyed = keyed;
          dated = dated;
          owned =
              λ rid did h. let bad : ⊥ = cc (e.rid_tree.find-empty (rid_key e rid)) in absurd bad;
          timed = λ m i. let bad : In m [] = rw e.exp_tree.items-empty at i in elim bad [ ];
        } in
        let (good, kept, y, _, here) =
          init_from_lem fuel 0 c refl x listed (omega arith) (omega arith) in
        (good, Indexed-view e (λ j. ap (λ t. e.storage.view t j) kept) y, kept, here)
