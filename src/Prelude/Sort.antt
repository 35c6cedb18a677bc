-- ===== src/Prelude/Sort.antt =====
-- Python's `sorted` and `min` under a key order, given as a Boolean test `x <= y`.
use mathlib.Core.List.{List, [], ◌∷◌}
use mathlib.Core.Bool.{Bool}
use p2pearl.Prelude.Tests.{if◌then◌else◌}

module _ {ℓ} {A : Type ℓ} (le : A → A → Bool) where
  unfoldable pub insert_sorted : A → List A → List A
  insert_sorted x [] = x ∷ []
  insert_sorted x (y ∷ ys) = if le x y then x ∷ y ∷ ys else y ∷ insert_sorted x ys

  unfoldable pub sorted : List A → List A
  unfolding insert_sorted
  sorted [] = []
  sorted (x ∷ xs) = insert_sorted x (sorted xs)

  -- `min(x, *xs)`: the first of the least.
  unfoldable pub least : A → List A → A
  least x [] = x
  least x (y ∷ ys) = least (if le x y then x else y) ys
