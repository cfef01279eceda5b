-- ===== src/Authz/Decision.antt =====
-- Which requests the rules allow.
use lslc_core.Common.{
  ℕ, zero, suc, ◌<◌, String, true, ◌≡◌, refl, ap, sym, ◌∙◌, ◌↔◌, ◌⊎◌, inl, inr, List, [], ◌∷◌, ◌==◌,
  eq_iff, length, take, arith, In, Bool-cases, subst,
}
use lslc_core.Authz.{
  Rule, Conf, segments, path_of, tree_from, resource_tree, in_slice, share, matches, matches_any,
  any_rule, authorized,
}

in_slice_iff : (a : String) (l : List String) → (in_slice a l ≡ true) ↔ In a l
unfolding in_slice
in_slice_iff a [] = (λ h. cc, λ i. elim i [ ])
in_slice_iff a (b ∷ l) =
    let (to, from) = in_slice_iff a l in
    let (eq, eq') = eq_iff b a in
    (
      λ h. elim (Bool-cases (b == a)) [
        | inl same ↦ inl (sym (eq same))
        | inr other ↦ inr (to (ground arith))
      ],
      λ i. elim i [ inl same ↦ ground (arith, eq' (sym same)) | inr j ↦ ground (arith, from j) ],
    )

-- Somebody of the list of groups is in the other list.
abbrev pub Shares : List String → List String → Type 0
Shares groups l = (g : String) × In g groups × In g l

share_iff : (k l : List String) → (share k l ≡ true) ↔ Shares k l
unfolding share
share_iff [] l = (λ h. cc, λ (g, i, j). elim i [ ])
share_iff (a ∷ k) l =
    let (to, from) = share_iff k l in
    (
      λ h. elim (Bool-cases (in_slice a l)) [
        | inl hit ↦ (a, inl refl, (in_slice_iff a l).0 hit)
        | inr miss ↦ let (g, i, j) = to (ground arith) in (g, inr i, j)
      ],
      λ (g, i, j). elim i [
        | inl same ↦ let hit = (in_slice_iff a l).1 (subst (λ x. In x l) same j) in ground arith
        | inr i' ↦ let hit = from (g, i', j) in ground arith
      ],
    )

-- A rule grants a path: it names the path, the method, and the user or one of the groups.
pub record Grants (rule : Rule) (path method user : String) (groups : List String) : Type 0 where
  pub names_path : In path rule.resources
  pub names_method : In method rule.methods
  pub names_user : In user rule.users ⊎ Shares groups rule.groups

matches_iff :
    (rule : Rule) (method user : String) (groups : List String) (path : String)
    → (matches rule method user groups path ≡ true) ↔ Grants rule path method user groups
unfolding matches
matches_iff rule method user groups path =
    let (p, p') = in_slice_iff path rule.resources in
    let (m, m') = in_slice_iff method rule.methods in
    let (u, u') = in_slice_iff user rule.users in
    let (g, g') = share_iff groups rule.groups in
    (
      λ h. record {
        names_path = p (ground arith);
        names_method = m (ground arith);
        names_user = elim (Bool-cases (in_slice user rule.users)) [
          | inl hit ↦ inl (u hit)
          | inr miss ↦ inr (g (ground arith))
        ];
      },
      λ x.
          let a = p' x.names_path in
          let b = m' x.names_method in
          elim x.names_user [
            | inl i ↦ let c = u' i in ground arith
            | inr i ↦ let c = g' i in ground arith
          ],
    )

any_path_iff :
    (rule : Rule) (method user : String) (groups tree : List String)
    → (matches_any rule method user groups tree ≡ true)
      ↔ ((path : String) × In path tree × Grants rule path method user groups)
unfolding matches_any
any_path_iff rule method user groups [] = (λ h. cc, λ (p, i, x). elim i [ ])
any_path_iff rule method user groups (p ∷ tree) =
    let (to, from) = any_path_iff rule method user groups tree in
    let (here, here') = matches_iff rule method user groups p in
    (
      λ h. elim (Bool-cases (matches rule method user groups p)) [
        | inl hit ↦ (p, inl refl, here hit)
        | inr miss ↦ let (q, i, x) = to (ground arith) in (q, inr i, x)
      ],
      λ (q, i, x). elim i [
        | inl same ↦
            let hit = here' (subst (λ y. Grants rule y method user groups) same x) in ground arith
        | inr i' ↦ let hit = from (q, i', x) in ground arith
      ],
    )

any_rule_iff :
    (rules : List Rule) (tree : List String) (method user : String) (groups : List String)
    → (any_rule rules tree method user groups ≡ true) ↔ (
        (rule : Rule) × In rule rules
        × (path : String) × In path tree
        × Grants rule path method user groups)
unfolding any_rule
any_rule_iff [] tree method user groups = (λ h. cc, λ (r, i, p, j, x). elim i [ ])
any_rule_iff (r ∷ rules) tree method user groups =
    let (to, from) = any_rule_iff rules tree method user groups in
    let (here, here') = any_path_iff r method user groups tree in
    (
      λ h. elim (Bool-cases (matches_any r method user groups tree)) [
        | inl hit ↦ let (p, j, x) = here hit in (r, inl refl, p, j, x)
        | inr miss ↦ let (q, i, p, j, x) = to (ground arith) in (q, inr i, p, j, x)
      ],
      λ (q, i, p, j, x). elim i [
        | inl same ↦
            let hit = here' (
              subst (λ y. (path : String) × In path tree × Grants y path method user groups) same
                (p, j, x)) in
            ground arith
        | inr i' ↦ let hit = from (q, i', p, j, x) in ground arith
      ],
    )

nat_cases : (n i : ℕ) → n < suc i → (n ≡ i) ⊎ (n < i)
nat_cases n i h = ground arith

-- A path is that of the first `n` segments of the resource, one at least.
abbrev pub IsAncestor : String → String → Type 0
IsAncestor path resource =
    (n : ℕ) × (n < length (segments resource)) × (path ≡ path_of (take (suc n) (segments resource)))

In-tree_from :
    (path : String) (i : ℕ) (l : List String)
    → In path (tree_from i l) ↔ ((n : ℕ) × (n < i) × (path ≡ path_of (take (suc n) l)))
unfolding tree_from
In-tree_from path zero l = (λ i. elim i [ ], λ (n, h, e). absurd (omega arith))
In-tree_from path (suc i) l =
    let (to, from) = In-tree_from path i l in
    (
      λ h. elim h [
        | inl e ↦ (i, omega arith, e)
        | inr j ↦ let (n, less, e) = to j in (n, omega arith, e)
      ],
      λ (n, h, e). elim (nat_cases n i h) [
        | inl same ↦ inl (e ∙ ap (λ k. path_of (take (suc k) l)) same)
        | inr less ↦ inr (from (n, less, e))
      ],
    )

-- A request is allowed exactly when some rule names the method, the user or one of the groups,
-- and a path made of the first segments of the resource, one at least: the resource itself, or a
-- directory above it on the boundary of a segment.
pub authorized_iff :
    (conf : Conf) (resource method user : String) (groups : List String)
    → (authorized conf resource method user groups ≡ true) ↔ (
        (rule : Rule) × In rule conf.rules
        × (path : String) × IsAncestor path resource
        × Grants rule path method user groups)
unfolding authorized resource_tree
authorized_iff conf resource method user groups =
    let l = segments resource in
    let (to, from) = any_rule_iff conf.rules (tree_from (length l) l) method user groups in
    (
      λ h.
          let (rule, i, path, j, x) = to h in
          (rule, i, path, (In-tree_from path (length l) l).0 j, x),
      λ (rule, i, path, a, x). from (rule, i, path, (In-tree_from path (length l) l).1 a, x),
    )
