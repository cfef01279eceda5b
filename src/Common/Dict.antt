-- ===== src/Common/Dict.antt =====
-- A Go map with string keys, where the program never ranges over it: the entries in the order in
-- which they were made, the newest first.
use Prim.Native.String.{String}
use mathlib.Core.Bool.{true, false}
use mathlib.Core.Path.{◌≡◌, refl, ap, ◌∙◌}
use mathlib.Core.Option.{Option, none, some}
use mathlib.Core.List.{List, [], ◌∷◌}
use text.Mathlib.Text.{◌==◌}
use lslc_core.Common.Tests.{if◌then◌else◌}

abbrev pub Dict {ℓ} : Type ℓ → Type ℓ
Dict V = List (String × V)

module _ {ℓ} {V : Type ℓ} where
  -- m[k], with the second result of the comma-ok form
  unfoldable pub lookup : String → Dict V → Option V
  lookup k [] = none
  lookup k ((j, v) ∷ d) = let rest = lookup k d in if j == k then some v else rest

  -- m[k] = v
  unfoldable pub assign : String → V → Dict V → Dict V
  assign k v d = (k, v) ∷ d

  pub lookup-assign :
      (d : Dict V) (k j : String) (v : V)
      → lookup j (assign k v d) ≡ (if k == j then some v else lookup j d)
  unfolding lookup assign
  lookup-assign d k j v = refl

  pub lookup_assigned :
      (d : Dict V) (k j : String) (v : V) → (k == j) ≡ true → lookup j (assign k v d) ≡ some v
  lookup_assigned d k j v h = lookup-assign d k j v ∙ ap (λ b. if b then some v else lookup j d) h

  pub lookup_other :
      (d : Dict V) (k j : String) (v : V) → (k == j) ≡ false → lookup j (assign k v d) ≡ lookup j d
  lookup_other d k j v h = lookup-assign d k j v ∙ ap (λ b. if b then some v else lookup j d) h
