-- ===== src/Resource/Indices/Rids.antt =====
-- The index from resource ids to device ids.
use lslc_core.Common.{
  String, ◌≡◌, refl, sym, ◌∙◌, List, [], ◌∷◌, Option, none, some, if◌then◌else◌, ◌==◌, eq_iff,
  arith, Option-cases, inl, inr,
}
use lslc_core.Tree.{is_zero}
use lslc_core.Tree.Nodes.{Map, string_keys}
use lslc_core.Resource.{Resource}
use lslc_core.Resource.State.{Env, add_rids, remove_rids, rid_key}
use lslc_core.Resource.Sorting.{has_id}

pub is_zero-string_keys : (a b : Map String) → is_zero (string_keys a b) ≡ (a.key == b.key)
unfolding string_keys
is_zero-string_keys a b = ground arith

str_eq_comm : (a b : String) → (a == b) ≡ (b == a)
str_eq_comm a b = ground (arith, eq_iff a b, eq_iff b a)

abbrev pub value_of : Option (Map String) → Option String
value_of none = none
value_of (some m) = some m.value

abbrev pub or_else : Option String → Option String → Option String
or_else none o = o
or_else (some x) o = some x

module _ (e : Env) where
  -- The device that the index gives for a resource.
  abbrev pub owner : e.rid_tree.Tree → String → Option String
  owner t rid = value_of (e.rid_tree.find (rid_key e rid) t)

  owner-add :
      (k did : String) (t : e.rid_tree.Tree) (rid : String)
      → owner (e.rid_tree.add (record { key = k; value = did }) t).0 rid
        ≡ or_else (owner t rid) (if k == rid then some did else none)
  owner-add k did t rid =
      let x : Map String = record { key = k; value = did } in
      let here : e.rid_tree.find x t ≡ e.rid_tree.find (rid_key e k) t =
        e.rid_tree.find-items x t
        ∙ unfold string_keys in (sym (e.rid_tree.find-items (rid_key e k) t)) in
      elim (Option-cases (e.rid_tree.find x t)) [
        | inl new ↦ ground (
          arith,
          e.rid_tree.find-add x (rid_key e rid) t new,
          is_zero-string_keys (rid_key e rid) x,
          str_eq_comm rid k,
          here,
          eq_iff k rid,
        )
        | inr (y, old) ↦ ground (arith, e.rid_tree.add_duplicate x y t old, here, eq_iff k rid)
      ]

  owner-remove :
      (k : String) (t : e.rid_tree.Tree) (rid : String)
      → owner (e.rid_tree.remove (rid_key e k) t).0 rid ≡ (if k == rid then none else owner t rid)
  owner-remove k t rid = ground (
    arith,
    e.rid_tree.find-remove (rid_key e k) (rid_key e rid) t,
    is_zero-string_keys (rid_key e rid) (rid_key e k),
    str_eq_comm rid k,
  )

  -- A resource id that is in the index keeps its device; the others get the new one.
  pub owner-add_rids :
      (did : String) (rs : List Resource) (t : e.rid_tree.Tree) (rid : String)
      → owner (add_rids e did rs t) rid
        ≡ or_else (owner t rid) (if has_id rid rs then some did else none)
  unfolding add_rids
  owner-add_rids did [] t rid = ground arith
  owner-add_rids did (r ∷ rs) t rid =
      let t' = (e.rid_tree.add (record { key = r.id; value = did }) t).0 in
      ground (arith, owner-add r.id did t rid, owner-add_rids did rs t' rid)

  pub owner-remove_rids :
      (rs : List Resource) (t : e.rid_tree.Tree) (rid : String)
      → owner (remove_rids e rs t) rid ≡ (if has_id rid rs then none else owner t rid)
  unfolding remove_rids
  owner-remove_rids [] t rid = refl
  owner-remove_rids (r ∷ rs) t rid =
      let t' = (e.rid_tree.remove (rid_key e r.id) t).0 in
      ground (arith, owner-remove r.id t rid, owner-remove_rids rs t' rid)
