-- ===== src/Tree.antt =====
-- What the program relies on in the ordered trees of github.com/ancientlore/go-avltree, which is
-- not part of it: a tree is a parameter, with the documented behaviour of its calls as laws.
-- Children: the nodes and comparison functions of the program, and trees as lists for the tests.
pub mod Nodes
pub mod Model
use Prim.Native.Nat.{Ordering}
use lslc_core.Common.{
  ℕ, ◌+◌, ◌≡◌, ◌↔◌, ◌⊎◌, Bool, true, false, List, [], ◌∷◌, ◌++◌, Option, none, some, In, All,
  find_first, length, if◌then◌else◌,
}

abbrev pub is_zero : Ordering → Bool
is_zero Ordering.eq = true
is_zero _ = false

-- A tree that keeps one item for each key: avl.New(compare, 0). `add` answers whether the key was
-- there, and then changes nothing; `remove` answers the item that it removed.
pub record UniqueTree (A : Type 0) (compare : A → A → Ordering) : Type 1 where
  pub Tree : Type 0
  pub empty : Tree
  pub find : A → Tree → Option A
  pub add : A → Tree → Tree × Bool
  pub remove : A → Tree → Tree × Option A
  pub items : Tree → List A
  pub len : Tree → ℕ
  pub find-empty : (x : A) → find x empty ≡ none
  pub find_matches : (x y : A) (t : Tree) → find x t ≡ some y → is_zero (compare x y) ≡ true
  pub add_new : (x : A) (t : Tree) → find x t ≡ none → (add x t).1 ≡ false
  pub add_duplicate : (x y : A) (t : Tree) → find x t ≡ some y → add x t ≡ (t, true)
  pub find-add :
      (x y : A) (t : Tree)
      → find x t ≡ none
      → find y (add x t).0 ≡ (if is_zero (compare y x) then some x else find y t)
  pub removed : (x : A) (t : Tree) → (remove x t).1 ≡ find x t
  pub find-remove :
      (x y : A) (t : Tree)
      → find y (remove x t).0 ≡ (if is_zero (compare y x) then none else find y t)
  pub find-items : (x : A) (t : Tree) → find x t ≡ find_first (λ y. is_zero (compare x y)) (items t)
  pub len-items : (t : Tree) → len t ≡ length (items t)

-- A tree that keeps items with equal keys apart: avl.New(compare, avl.AllowDuplicates). `remove`
-- takes out one of the items that match, if there is any.
pub record DuplicateTree (A : Type 0) (compare : A → A → Ordering) : Type 1 where
  pub Tree : Type 0
  pub empty : Tree
  pub add : A → Tree → Tree
  pub remove : A → Tree → Tree × Option A
  pub items : Tree → List A
  pub items-empty : items empty ≡ []
  pub items-add :
      (x : A) (t : Tree)
      → (before : List A) × (after : List A) × (items t ≡ before ++ after)
        × (items (add x t) ≡ before ++ (x ∷ after))
  pub remove_none :
      (x : A) (t : Tree)
      → All (λ y. is_zero (compare x y) ≡ false) (items t)
      → remove x t ≡ (t, none)
  pub remove_one :
      (x y : A) (t : Tree)
      → In y (items t)
      → is_zero (compare x y) ≡ true
      → (before : List A) × (after : List A) × (z : A) × (items t ≡ before ++ (z ∷ after))
        × (is_zero (compare x z) ≡ true)
        × ((remove x t).1 ≡ some z)
        × (items (remove x t).0 ≡ before ++ after)
