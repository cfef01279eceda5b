-- ===== src/Resource/Sorting.antt =====
-- sort.Sort over `Resources` (Len, Less and Swap in controller.go): by the id. The sorted order is
-- unique where the ids differ; any sort has this result up to resources with equal ids.
use mathlib.Core.List.Perm
use mathlib.Core.List.{Perm}
use lslc_core.Common.{
  String, Bool, false, ◌||◌, ◌==◌, List, [], ◌∷◌, ◌≡◌, refl, if◌then◌else◌, arith, Bool-cases, inl,
  inr,
}
use lslc_core.Tree.Nodes.{str_lt}
use lslc_core.Resource.{Resource}

-- Less(i, j)
unfoldable pub less : Resource → Resource → Bool
less a b = str_lt a.id b.id

insert : Resource → List Resource → List Resource
insert r [] = r ∷ []
insert r (x ∷ xs) = let rest = x ∷ insert r xs in if less x r then rest else r ∷ x ∷ xs

unfoldable pub sort : List Resource → List Resource
unfolding insert
sort [] = []
sort (x ∷ xs) = insert x (sort xs)

-- A resource has the id.
abbrev pub has_id : String → List Resource → Bool
has_id id [] = false
has_id id (r ∷ rs) = (r.id == id) || has_id id rs

has_id-insert :
    (id : String) (r : Resource) (l : List Resource) → has_id id (insert r l) ≡ has_id id (r ∷ l)
unfolding insert
has_id-insert id r [] = refl
has_id-insert id r (x ∷ xs) = ground (arith, has_id-insert id r xs)

-- Sorting keeps every id and adds none.
pub has_id-sort : (id : String) (l : List Resource) → has_id id (sort l) ≡ has_id id l
unfolding sort
has_id-sort id [] = refl
has_id-sort id (x ∷ xs) = ground (arith, has_id-insert id x (sort xs), has_id-sort id xs)

insert-Perm : (r : Resource) (l : List Resource) → Perm (r ∷ l) (insert r l)
unfolding insert
insert-Perm r [] = Perm.refl (r ∷ [])
insert-Perm r (x ∷ xs) = elim (Bool-cases (less x r)) [
  | inl before ↦
      rw (before, insert) (Perm.trans (Perm.swap x r xs) (Perm.cons x (insert-Perm r xs)))
  | inr after ↦ rw (after, insert) (Perm.refl (r ∷ x ∷ xs))
]

-- Sorting loses no resource and adds none.
pub sort-Perm : (l : List Resource) → Perm l (sort l)
unfolding sort
sort-Perm [] = Perm.refl []
sort-Perm (x ∷ xs) = Perm.trans (Perm.cons x (sort-Perm xs)) (insert-Perm x (sort xs))
