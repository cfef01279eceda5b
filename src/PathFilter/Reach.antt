-- ===== src/PathFilter/Reach.antt =====
-- Which values a path leads to.
use lslc_core.Common.{
  String, true, false, ◌≡◌, ◌≢◌, List, [], ◌∷◌, some, Result, ok, ◌==◌, Bool-cases, Result-cases,
  subst, inl, inr, ◌⊎◌,
}
use lslc_core.Json.{Json, null, array, object, Items, nil, item, Fields, end, field, get_field}
use lslc_core.PathFilter.{
  MatchError, recursive_match, match_fields, match_items, has_field, match_object, match_value,
}

-- A path leads from a value to another: through the field of an object, or through an element of
-- an array without using up the path.
mutual
  pub data Leads : Json → List String → Json → Type 0 where
    here : {v : Json} → Leads v [] v
    through_field :
        {fields : Fields} {key : String} {path : List String} {v w : Json}
        → get_field key fields ≡ some v
        → Leads v path w
        → Leads (object fields) (key ∷ path) w
    through_item :
        {items : Items} {key : String} {path : List String} {v w : Json}
        → InItems v items
        → Leads v (key ∷ path) w
        → Leads (array items) (key ∷ path) w

  pub data InItems : Json → Items → Type 0 where
    first : {v : Json} {rest : Items} → InItems v (item v rest)
    later : {v u : Json} {rest : Items} → InItems v rest → InItems v (item u rest)

Leads-through_fields :
    {fields : Fields} {key : String} {path : List String} {w : Json}
    → (w ≡ null) ⊎ ((v : Json) × (get_field key fields ≡ some v) × Leads v path w)
    → (w ≡ null) ⊎ Leads (object fields) (key ∷ path) w
Leads-through_fields (inl e) = inl e
Leads-through_fields (inr (v, g, l)) = inr (through_field g l)

Leads-through_items :
    {items : Items} {key : String} {path : List String} {w : Json}
    → (w ≡ null) ⊎ ((v : Json) × InItems v items × Leads v (key ∷ path) w)
    → (w ≡ null) ⊎ Leads (array items) (key ∷ path) w
Leads-through_items (inl e) = inl e
Leads-through_items (inr (v, g, l)) = inr (through_item g l)

past_first :
    {items : Items} {u : Json} {path : List String} {w : Json}
    → (w ≡ null) ⊎ ((v : Json) × InItems v items × Leads v path w)
    → (w ≡ null) ⊎ ((v : Json) × InItems v (item u items) × Leads v path w)
past_first (inl e) = inl e
past_first (inr (v, g, l)) = inr (v, later g, l)

at_first :
    {items : Items} {u : Json} {path : List String} {w : Json}
    → (w ≡ null) ⊎ Leads u path w
    → (w ≡ null) ⊎ ((v : Json) × InItems v (item u items) × Leads v path w)
at_first (inl e) = inl e
at_first {u} (inr l) = inr (u, first, l)

field_found :
    (k key : String) {u : Json} (rest : Fields) {path : List String} {w : Json}
    → (k == key) ≡ true
    → (w ≡ null) ⊎ Leads u path w
    → (w ≡ null) ⊎ ((v : Json) × (get_field key (field k u rest) ≡ some v) × Leads v path w)
unfolding get_field
field_found k key rest h (inl e) = inl e
field_found k key {u} rest h (inr l) = inr (u, (rw h), l)

field_passed :
    (k key : String) (u : Json) (rest : Fields) {path : List String} {w : Json}
    → (k == key) ≡ false
    → (w ≡ null) ⊎ ((v : Json) × (get_field key rest ≡ some v) × Leads v path w)
    → (w ≡ null) ⊎ ((v : Json) × (get_field key (field k u rest) ≡ some v) × Leads v path w)
unfolding get_field
field_passed k key u rest h (inl e) = inl e
field_passed k key u rest h (inr (v, g, l)) = inr (v, rw h g, l)

at_end : (v w : Json) → ◌≡◌ {A = Result MatchError Json} (ok v) (ok w) → Leads v [] w
at_end v w e = let p : v ≡ w = cc in subst (λ x. Leads v [] x) p here

mutual
  unfolding recursive_match

  match_sound :
      (m : Json) (path : List String) (w : Json)
      → recursive_match m path ≡ ok w
      → (w ≡ null) ⊎ Leads m path w
  match_sound null [] w h = inr (at_end null w h)
  match_sound v [] w h = inr (at_end v w h)
  match_sound (object fields) (key ∷ path) w h =
      Leads-through_fields (fields_sound fields key path w h)
  match_sound (array items) (key ∷ path) w h = Leads-through_items (items_sound items key path w h)
  match_sound _ (key ∷ path) w h = inl (cc)

  fields_sound :
      (fields : Fields) (key : String) (path : List String) (w : Json)
      → match_fields fields key path ≡ ok w
      → (w ≡ null) ⊎ ((v : Json) × (get_field key fields ≡ some v) × Leads v path w)
  fields_sound end key path w h = inl (cc)
  fields_sound (field k v rest) key path w h = elim (Bool-cases (k == key)) [
    | inl same ↦ field_found k key rest same (match_sound v path w (rw same at h))
    | inr other ↦ field_passed k key v rest other (fields_sound rest key path w (rw other at h))
  ]

  items_sound :
      (items : Items) (key : String) (path : List String) (w : Json)
      → match_items items key path ≡ ok w
      → (w ≡ null) ⊎ ((v : Json) × InItems v items × Leads v (key ∷ path) w)
  items_sound nil key path w h = inl (cc)
  items_sound (item (object fields) rest) key path w h = elim (Bool-cases (has_field key fields)) [
    | inl has ↦ at_first (Leads-through_fields (fields_sound fields key path w (rw has at h)))
    | inr lacks ↦ past_first (items_sound rest key path w (rw lacks at h))
  ]
  items_sound (item _ rest) key path w h = cc

-- What recursiveMatch returns, when it does not panic, is null or the path leads to it.
pub recursive_match_sound :
    (m : Json) (path : List String) (w : Json)
    → recursive_match m path ≡ ok w
    → (w ≡ null) ⊎ Leads m path w
recursive_match_sound = match_sound

-- An object that MatchObject has matched has, at the end of the path, a value that is not null and
-- that passes the operation.
pub match_object-Leads :
    (print_composite : Json → String) (m : Json) (path : List String) (op value : String)
    → match_object print_composite (some m) path op value ≡ ok true
    → (w : Json) × (w ≢ null) × Leads m path w × (match_value print_composite w op value ≡ ok true)
unfolding match_object match_value
match_object-Leads print_composite m path op value h =
    elim (Result-cases (recursive_match m path)) [
      | inr (e, r) ↦ let bad : ⊥ = cc (rw r at h) in absurd bad
      | inl (w, r) ↦
          let matched : match_value print_composite w op value ≡ ok true = rw r at h in
          let not_null : w ≢ null =
            λ e. cc (subst (λ x. match_value print_composite x op value ≡ ok true) e matched) in
          elim (match_sound m path w r) [
            | inl e ↦ absurd (not_null e)
            | inr l ↦ (w, not_null, l, matched)
          ]
    ]
