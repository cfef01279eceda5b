-- ===== src/Tree/Model.antt =====
-- Trees as lists, which meet what is assumed of the trees: they serve the tests.
use Prim.Native.Nat.{Ordering}
use lslc_core.Common.{
  ℕ, String, Bool, true, false, not, ◌≡◌, refl, ap, List, [], ◌∷◌, ◌++◌, Option, none, some, In,
  All, keep, find_first, find_first_passes, length, if◌then◌else◌, ◌==◌, eq_iff, arith, Bool-cases,
  inl, inr, leb,
}
use lslc_core.Tree.{UniqueTree, DuplicateTree, is_zero}
use lslc_core.Tree.Nodes.{Map, time_keys}

module _ {A : Type 0} (key : A → String) (compare : A → A → Ordering)
    (compares : (x y : A) → is_zero (compare x y) ≡ (key x == key y)) where
  abbrev pub lookup : A → List A → Option A
  lookup x = find_first (λ y. is_zero (compare x y))

  abbrev pub insert : A → List A → List A × Bool
  insert x t = elim (lookup x t) [ none ↦ (x ∷ t, false) | some y ↦ (t, true) ]

  abbrev pub take_out : A → List A → List A × Option A
  take_out x t = (keep (λ y. not (is_zero (compare x y))) t, lookup x t)

  pub insert_new : (x : A) (t : List A) → lookup x t ≡ none → insert x t ≡ (x ∷ t, false)
  insert_new x t h = rw (h, insert)

  pub insert_duplicate : (x y : A) (t : List A) → lookup x t ≡ some y → insert x t ≡ (t, true)
  insert_duplicate x y t h = rw (h, insert)

  pub lookup-take_out :
      (x y : A) (t : List A)
      → lookup y (take_out x t).0 ≡ (if is_zero (compare y x) then none else lookup y t)
  lookup-take_out x y [] = ground arith
  lookup-take_out x y (z ∷ t) = ground (
    arith,
    lookup-take_out x y t,
    compares x z,
    compares y x,
    compares y z,
    eq_iff (key x) (key z),
    eq_iff (key y) (key x),
    eq_iff (key y) (key z),
  )

  abbrev pub keyed_list : UniqueTree A compare
  keyed_list = record {
    Tree = List A;
    empty = [];
    find = lookup;
    add = insert;
    remove = take_out;
    items = λ t. t;
    len = length;
    find-empty = λ x. refl;
    find_matches = λ x y t h. (find_first_passes (λ z. is_zero (compare x z)) t y h).0;
    add_new = λ x t h. ap (λ (r : List A × Bool). r.1) (insert_new x t h);
    add_duplicate = insert_duplicate;
    find-add = λ x y t h. rw (insert_new x t h);
    removed = λ x t. refl;
    find-remove = lookup-take_out;
    find-items = λ x t. refl;
    len-items = λ t. refl;
  }

-- Nodes ordered by their times, a new node before those with the same time.
unfoldable pub insert_time : Map ℕ → List (Map ℕ) → List (Map ℕ)
insert_time x [] = x ∷ []
insert_time x (y ∷ t) =
    let rest = y ∷ insert_time x t in if leb x.key y.key then x ∷ y ∷ t else rest

unfoldable pub remove_time : Map ℕ → List (Map ℕ) → List (Map ℕ) × Option (Map ℕ)
remove_time x [] = ([], none)
remove_time x (y ∷ t) =
    let (rest, r) = remove_time x t in
    if is_zero (time_keys x y) then (t, some y) else (y ∷ rest, r)

pub insert_time_cut :
    (x : Map ℕ) (t : List (Map ℕ))
    → (before : List (Map ℕ)) × (after : List (Map ℕ)) × (t ≡ before ++ after)
      × (insert_time x t ≡ before ++ (x ∷ after))
unfolding insert_time
insert_time_cut x [] = ([], [], refl, refl)
insert_time_cut x (y ∷ t) = elim (Bool-cases (leb x.key y.key)) [
  | inl here ↦ ([], y ∷ t, refl, (rw here))
  | inr there ↦
      let (before, after, old, new) = insert_time_cut x t in
      (y ∷ before, after, ap (λ l. y ∷ l) old, rw there (ap (λ l. y ∷ l) new))
]

pub remove_time-none :
    (x : Map ℕ) (t : List (Map ℕ))
    → All (λ y. is_zero (time_keys x y) ≡ false) t
    → remove_time x t ≡ (t, none)
unfolding remove_time
remove_time-none x [] h = refl
remove_time-none x (y ∷ t) (h, hs) = rw (h, remove_time-none x t hs)

pub remove_time_one :
    (x y : Map ℕ) (t : List (Map ℕ))
    → In y t
    → is_zero (time_keys x y) ≡ true
    → (before : List (Map ℕ)) × (after : List (Map ℕ)) × (z : Map ℕ) × (t ≡ before ++ (z ∷ after))
      × (is_zero (time_keys x z) ≡ true)
      × ((remove_time x t).1 ≡ some z)
      × ((remove_time x t).0 ≡ before ++ after)
unfolding remove_time
remove_time_one x y [] i h = elim i [ ]
remove_time_one x y (z ∷ t) i h = elim (Bool-cases (is_zero (time_keys x z))) [
  | inl hit ↦ ([], t, z, refl, hit, (rw hit), (rw hit))
  | inr miss ↦
      let later : In y t = elim i [
        | inr j ↦ j
        | inl e ↦ let bad : ⊥ = cc (rw e at h) in absurd bad
      ] in
      let (before, after, w, cut, zero_w, found, left) = remove_time_one x y t later h in
      (
        z ∷ before,
        after,
        w,
        ap (λ l. z ∷ l) cut,
        zero_w,
        rw miss found,
        rw miss (ap (λ l. z ∷ l) left),
      )
]

abbrev pub timed_list : DuplicateTree (Map ℕ) time_keys
timed_list = record {
  Tree = List (Map ℕ);
  empty = [];
  add = insert_time;
  remove = remove_time;
  items = λ t. t;
  items-empty = refl;
  items-add = insert_time_cut;
  remove_none = remove_time-none;
  remove_one = remove_time_one;
}
