-- ===== src/Prelude/Assoc.antt =====
-- Go's maps with text keys, as association lists. The order of iteration is not specified in Go;
-- a theorem about a loop over a map holds for every order of the list.
use mathlib.Core.Path.{◌≡◌, refl}
use mathlib.Core.Logic.{◌⊎◌}
use mathlib.Core.Option.{Option, none, some}
use mathlib.Core.List.{List, [], ◌∷◌}
use native.Mathlib.Omega.{arith}
use polarix.Prelude.Tests.{if◌then◌else◌}
use polarix.Prelude.Strings.{Text, same, same_iff}

module _ {ℓ} {V : Type ℓ} where
  unfoldable pub lookup : Text → List (Text × V) → Option V
  lookup key [] = none
  lookup key ((i, old) ∷ m) = let rest = lookup key m in if same i key then some old else rest

  unfoldable pub insert : Text → V → List (Text × V) → List (Text × V)
  insert key new [] = (key, new) ∷ []
  insert key new ((i, old) ∷ m) =
      let rest = insert key new m in if same i key then (key, new) ∷ m else (i, old) ∷ rest

  unfoldable pub delete : Text → List (Text × V) → List (Text × V)
  delete k [] = []
  delete k ((j, v) ∷ m) = let rest = delete k m in if same j k then rest else (j, v) ∷ rest

  pub lookup-insert :
      (key j : Text) (new : V) (m : List (Text × V))
      → lookup j (insert key new m) ≡ (if same key j then some new else lookup j m)
  unfolding insert lookup
  lookup-insert key j new ((i, old) ∷ m) =
      ground (arith, lookup-insert key j new m, same_iff i j, same_iff key j, same_iff i key)
  lookup-insert key j new [] = refl

  pub lookup-delete :
      (k j : Text) (m : List (Text × V))
      → lookup j (delete k m) ≡ (if same k j then none else lookup j m)
  unfolding lookup delete
  lookup-delete k j [] = ground arith
  lookup-delete k j ((i, w) ∷ m) =
      ground (arith, same_iff k j, same_iff i k, same_iff i j, lookup-delete k j m)

  -- The key is bound.
  abbrev pub HasKey : Text → List (Text × V) → Type 0
  HasKey k [] = ⊥
  HasKey k ((j, v) ∷ m) = (j ≡ k) ⊎ HasKey k m

pub ruleset map_laws = (lookup-insert, lookup-delete)
