-- ===== src/Base/Maps.antt =====
-- Go maps with text keys, as association lists with at most one entry for a key that `insert`
-- and `delete` keep. Go visits a map in no fixed order, and the order of a list is arbitrary.
use mathlib.Core.List.{List, [], ◌∷◌}
use mathlib.Core.Option.{Option, none, some}
use mathlib.Core.Path.{◌≡◌, refl}
use native.Mathlib.Omega.{arith}
use corectl.Base.Tests.{if◌then◌else◌}
use corectl.Base.Strings.{Text, ◌=t◌, =t_iff}

module _ {ℓ} {V : Type ℓ} where
  unfoldable pub lookup : Text → List (Text × V) → Option V
  lookup k [] = none
  lookup k ((j, v) ∷ m) = if j =t k then some v else lookup k m

  unfoldable pub insert : Text → V → List (Text × V) → List (Text × V)
  insert k v [] = (k, v) ∷ []
  insert k v ((j, w) ∷ m) = if j =t k then (k, v) ∷ m else (j, w) ∷ insert k v m

  -- `delete(m, k)`, which does nothing on a missing key
  unfoldable pub delete : Text → List (Text × V) → List (Text × V)
  delete k [] = []
  delete k ((j, w) ∷ m) = if j =t k then delete k m else (j, w) ∷ delete k m

  abbrev pub values : List (Text × V) → List V
  values [] = []
  values ((j, w) ∷ m) = w ∷ values m

  pub lookup-insert :
      (k j : Text) (v : V) (m : List (Text × V))
      → lookup j (insert k v m) ≡ (if k =t j then some v else lookup j m)
  unfolding lookup insert
  lookup-insert k j v [] = refl
  lookup-insert k j v ((i, w) ∷ m) =
      ground (arith, =t_iff k j, =t_iff i k, =t_iff i j, lookup-insert k j v m)

  pub lookup-delete :
      (k j : Text) (m : List (Text × V))
      → lookup j (delete k m) ≡ (if k =t j then none else lookup j m)
  unfolding lookup delete
  lookup-delete k j [] = ground arith
  lookup-delete k j ((i, w) ∷ m) =
      ground (arith, =t_iff k j, =t_iff i k, =t_iff i j, lookup-delete k j m)
