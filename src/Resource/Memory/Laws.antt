-- ===== src/Resource/Memory/Laws.antt =====
-- The in-memory storage keeps what the CatalogStorage interface promises.
use lslc_core.Common.{
  ℕ, ◌<◌, String, ◌≡◌, ap, sym, ◌∙◌, List, [], Option, none, some, Result, ok, err, if◌then◌else◌,
  ◌==◌, eq_iff, arith, ok_injective, ◌≤◌, eqb, eqb→eq, take, drop, length, Option-cases, Bool-cases,
  Result-cases, inl, inr,
}
use lslc_core.Common.Int.{ℤ}
use lslc_core.Paging.{get_paging_attr}
use lslc_core.Tree.{UniqueTree, is_zero}
use lslc_core.Resource.{Device, CatalogError, not_found}
use lslc_core.Resource.Memory.{operator, probe, page_of, add, get, update, delete, list, total}
use lslc_core.Resource.Store.{CatalogStorage, IsReliable, max_per_page}

pub is_zero-operator : (a b : Device) → is_zero (operator a b) ≡ (a.id == b.id)
unfolding operator
is_zero-operator a b = ground arith

module _ (t : UniqueTree Device operator) where
  -- The device that is stored under an id.
  abbrev pub view : t.Tree → String → Option Device
  view s id = t.find (probe id) s

  find-probe : (d : Device) (s : t.Tree) → t.find d s ≡ view s d.id
  find-probe d s = t.find-items d s ∙ unfold operator in (sym (t.find-items (probe d.id) s))

  view-add :
      (d : Device) (s : t.Tree) (j : String)
      → view s d.id ≡ none
      → view (t.add d s).0 j ≡ (if d.id == j then some d else view s j)
  view-add d s j new = ground (
    arith,
    t.find-add d (probe j) s (find-probe d s ∙ new),
    is_zero-operator (probe j) d,
    eq_iff d.id j,
    eq_iff j d.id,
  )

  view-remove :
      (id : String) (s : t.Tree) (j : String)
      → view (t.remove (probe id) s).0 j ≡ (if id == j then none else view s j)
  view-remove id s j = ground (
    arith,
    t.find-remove (probe id) (probe j) s,
    is_zero-operator (probe j) (probe id),
    eq_iff id j,
    eq_iff j id,
  )

  pub add_ok :
      (d : Device) (s : t.Tree)
      → (add t d s).1 ≡ ok tt
      → (view s d.id ≡ none)
        × ((j : String) → view (add t d s).0 j ≡ (if d.id == j then some d else view s j))
  unfolding add
  add_ok d s h = elim (Option-cases (t.find d s)) [
    | inr (y, old) ↦ let bad : ⊥ = cc (rw (t.add_duplicate d y s old) at h) in absurd bad
    | inl new ↦
        let none_there = sym (find-probe d s) ∙ new in (none_there, λ j. view-add d s j none_there)
  ]

  pub add_err :
      (d : Device) (s : t.Tree) (x : CatalogError)
      → (add t d s).1 ≡ err x
      → (j : String) → view (add t d s).0 j ≡ view s j
  unfolding add
  add_err d s x h j = elim (Option-cases (t.find d s)) [
    | inr (y, old) ↦ rw (t.add_duplicate d y s old)
    | inl new ↦ let bad : ⊥ = cc (rw (t.add_new d s new) at h) in absurd bad
  ]

  pub get_ok : (id : String) (s : t.Tree) (d : Device) → get t id s ≡ ok d → view s id ≡ some d
  unfolding get
  get_ok id s d h = ground arith

  pub get_missing :
      (id : String) (s : t.Tree) (m : String) → get t id s ≡ err (not_found m) → view s id ≡ none
  unfolding get
  get_missing id s m h = ground arith

  pub update_ok :
      (id : String) (d d' : Device) (s : t.Tree)
      → view s id ≡ some d'
      → d.id ≡ id
      → (update t id d s).1 ≡ ok tt
      → (j : String) → view (update t id d s).0 j ≡ (if id == j then some d else view s j)
  unfolding update
  update_ok id d d' s there same h j =
      let s' = (t.remove (probe id) s).0 in
      let free : view s' d.id ≡ none = ground (arith, view-remove id s d.id, eq_iff id d.id) in
      rw (t.removed (probe id) s, there, update)
        (view-add d s' j free
          ∙ rw (same, view-remove id s j)
              (elim (Bool-cases (id == j)) [ inl here ↦ rw here | inr elsewhere ↦ rw elsewhere ]))

  remove_missing :
      (id : String) (s : t.Tree) (j : String)
      → view s id ≡ none
      → view (t.remove (probe id) s).0 j ≡ view s j
  remove_missing id s j gone =
      ground (arith, view-remove id s j, eq_iff id j, λ (p : id ≡ j). ap (view s) p)

  pub update_err :
      (id : String) (d : Device) (s : t.Tree) (x : CatalogError)
      → (update t id d s).1 ≡ err x
      → (j : String) → view (update t id d s).0 j ≡ view s j
  unfolding update
  update_err id d s x h j = elim (Option-cases (view s id)) [
    | inl gone ↦ rw (t.removed (probe id) s, gone, update) (remove_missing id s j gone)
    | inr (old, there) ↦
        let bad : ⊥ = cc (rw (t.removed (probe id) s, there, update) at h) in absurd bad
  ]

  pub delete_ok :
      (id : String) (s : t.Tree)
      → (delete t id s).1 ≡ ok tt
      → (j : String) → view (delete t id s).0 j ≡ (if id == j then none else view s j)
  unfolding delete
  delete_ok id s h j = elim (Option-cases (view s id)) [
    | inl gone ↦ let bad : ⊥ = cc (rw (t.removed (probe id) s, gone, delete) at h) in absurd bad
    | inr (old, there) ↦ rw (t.removed (probe id) s, there, delete) (view-remove id s j)
  ]

  pub delete_err :
      (id : String) (s : t.Tree) (x : CatalogError)
      → (delete t id s).1 ≡ err x
      → (j : String) → view (delete t id s).0 j ≡ view s j
  unfolding delete
  delete_err id s x h j = elim (Option-cases (view s id)) [
    | inl gone ↦ rw (t.removed (probe id) s, gone, delete) (remove_missing id s j gone)
    | inr (old, there) ↦
        let bad : ⊥ = cc (rw (t.removed (probe id) s, there, delete) at h) in absurd bad
  ]

  pub list_ok :
      (page per_page : ℤ) (s : t.Tree) (ds : List Device) (n : ℕ)
      → list t page per_page s ≡ ok (ds, n)
      → (offset : ℕ) × (limit : ℕ) × (get_paging_attr
            (length (t.items s))
            page
            per_page
            max_per_page
          ≡ ok (offset, limit))
        × (ds ≡ take limit (drop offset (t.items s)))
        × (0 < limit → n ≡ length (t.items s))
        × (n ≤ length (t.items s))
  unfolding list
  list_ok page per_page s ds n h =
      elim (Result-cases (get_paging_attr (t.len s) page per_page max_per_page)) [
        | inr (x, bad) ↦ let no : ⊥ = cc (rw (bad, list) at h) in absurd no
        | inl (w, good) ↦
            let counted : t.len s ≡ length (t.items s) = t.len-items s in
            let attr : get_paging_attr (length (t.items s)) page per_page max_per_page ≡ ok w =
              rw (← counted) good in
            elim (Bool-cases (eqb w.1 0)) [
              | inl empty ↦
                  let r : ◌≡◌ {A = Result CatalogError (List Device × ℕ)} (ok ([], 0))
                      (ok (ds, n)) =
                    rw (good, empty, list) at h in
                  let zero_ : w.1 ≡ 0 = eqb→eq w.1 0 empty in
                  let none_counted : 0 ≡ n = ap (λ (q : List Device × ℕ). q.1) (ok_injective r) in
                  (w.0, w.1, attr, (rw zero_ (cc)), λ p. absurd (omega arith), omega arith)
              | inr full ↦
                  let r : ◌≡◌ {A = Result CatalogError (List Device × ℕ)}
                      (ok (page_of w (t.items s), t.len s)) (ok (ds, n)) =
                    rw (good, full, list) at h in
                  let all_counted : t.len s ≡ n =
                    ap (λ (q : List Device × ℕ). q.1) (ok_injective r) in
                  (w.0, w.1, attr, (cc), λ p. sym all_counted ∙ counted, omega arith)
            ]
      ]

  -- The storage of the catalog.
  abbrev pub memory_storage : CatalogStorage
  memory_storage = record {
    State = t.Tree;
    add = add t;
    get = get t;
    update = update t;
    delete = delete t;
    list = list t;
    total = total t;
    view = view;
    devices = t.items;
    get_ok = get_ok;
    get_missing = get_missing;
    add_ok = add_ok;
    add_err = add_err;
    update_ok = update_ok;
    update_err = update_err;
    delete_ok = delete_ok;
    delete_err = delete_err;
    list_ok = list_ok;
  }

  got : (s : t.Tree) (id : String) (d : Device) → view s id ≡ some d → get t id s ≡ ok d
  unfolding get
  got s id d h = rw (h, get)

  paged :
      (s : t.Tree) (page per_page : ℤ) (w : ℕ × ℕ)
      → get_paging_attr (length (t.items s)) page per_page max_per_page ≡ ok w
      → (r : List Device × ℕ) × (list t page per_page s ≡ ok r)
  unfolding list
  paged s page per_page w h =
      let good : get_paging_attr (t.len s) page per_page max_per_page ≡ ok w =
        rw (t.len-items s) h in
      elim (Bool-cases (eqb w.1 0)) [
        | inl empty ↦ (([], 0), (rw (good, empty, list)))
        | inr full ↦ ((page_of w (t.items s), t.len s), (rw (good, full, list)))
      ]

  -- The in-memory storage returns every stored device by its id, and a page for all parameters
  -- that GetPagingAttr accepts.
  pub memory-IsReliable : (s : t.Tree) → IsReliable memory_storage s
  memory-IsReliable s = record { got = got s; paged = paged s }
