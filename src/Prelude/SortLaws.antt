-- ===== src/Prelude/SortLaws.antt =====
-- `sorted` and `least` under a test that is a total order.
use Prim.Native.Nat.{ℕ, ◌+◌}
use mathlib.Core.Path.{◌≡◌, refl, subst}
use mathlib.Core.Logic.{inl, inr}
use mathlib.Core.List.{List, [], ◌∷◌, map, Perm}
use mathlib.Core.List.Perm
use mathlib.Core.Bool.{Bool, true, false}
use native.Mathlib.Omega.{arith}
use p2pearl.Prelude.Tests.{Bool-cases}
use p2pearl.Prelude.Lists.{length, sum, All}
use p2pearl.Prelude.Sort.{insert_sorted, sorted, least}

-- A Boolean test that is a total order.
pub record IsOrder {ℓ} {A : Type ℓ} (le : A → A → Bool) : Type ℓ where
  pub total : (a b : A) → le a b ≡ false → le b a ≡ true
  pub trans : (a b c : A) → le a b ≡ true → le b c ≡ true → le a c ≡ true
  pub antisymm : (a b : A) → le a b ≡ true → le b a ≡ true → a ≡ b

module _ {ℓ} {A : Type ℓ} (le : A → A → Bool) where
  -- Each element before each later one.
  abbrev pub IsSorted : List A → Type ℓ
  IsSorted [] = Unit
  IsSorted (x ∷ xs) = All (λ y. le x y ≡ true) xs × IsSorted xs

  insert_sorted-perm : (x : A) (xs : List A) → Perm (insert_sorted le x xs) (x ∷ xs)
  unfolding insert_sorted
  insert_sorted-perm x [] = Perm.rfl
  insert_sorted-perm x (y ∷ ys) = elim (Bool-cases (le x y)) [
    | inl p ↦ rw (p, insert_sorted) Perm.rfl
    | inr p ↦
        rw (p, insert_sorted)
          (Perm.trans (Perm.cons y (insert_sorted-perm x ys)) (Perm.swap x y ys))
  ]

  pub sorted-perm : (xs : List A) → Perm (sorted le xs) xs
  unfolding sorted
  sorted-perm [] = Perm.rfl
  sorted-perm (x ∷ xs) =
      Perm.trans (insert_sorted-perm x (sorted le xs)) (Perm.cons x (sorted-perm xs))

  pub All-insert_sorted {κ} :
      (P : A → Type κ) (x : A) (xs : List A) → P x → All P xs → All P (insert_sorted le x xs)
  unfolding insert_sorted
  All-insert_sorted P x [] p ps = (p, tt)
  All-insert_sorted P x (y ∷ ys) p ps = elim (Bool-cases (le x y)) [
    | inl q ↦ rw (q, insert_sorted) (p, ps)
    | inr q ↦ rw (q, insert_sorted) (ps.0, All-insert_sorted P x ys p ps.1)
  ]

  pub All-sorted {κ} : (P : A → Type κ) (xs : List A) → All P xs → All P (sorted le xs)
  unfolding sorted
  All-sorted P [] ps = ps
  All-sorted P (x ∷ xs) ps = All-insert_sorted P x (sorted le xs) ps.0 (All-sorted P xs ps.1)

  sum-insert_sorted :
      (f : A → ℕ) (x : A) (xs : List A) → sum (map f (insert_sorted le x xs)) ≡ f x + sum (map f xs)
  unfolding insert_sorted
  sum-insert_sorted f x [] = refl
  sum-insert_sorted f x (y ∷ ys) = elim (Bool-cases (le x y)) [
    | inl q ↦ rw (q, insert_sorted)
    | inr q ↦ rw (q, insert_sorted) (omega (arith, sum-insert_sorted f x ys))
  ]

  pub sum-sorted : (f : A → ℕ) (xs : List A) → sum (map f (sorted le xs)) ≡ sum (map f xs)
  unfolding sorted
  sum-sorted f [] = refl
  sum-sorted f (x ∷ xs) = omega (arith, sum-insert_sorted f x (sorted le xs), sum-sorted f xs)

  length-insert_sorted : (x : A) (xs : List A) → length (insert_sorted le x xs) ≡ length xs + 1
  unfolding insert_sorted
  length-insert_sorted x [] = omega arith
  length-insert_sorted x (y ∷ ys) = ground (arith, length-insert_sorted x ys)

  pub length-sorted : (xs : List A) → length (sorted le xs) ≡ length xs
  unfolding sorted
  length-sorted [] = refl
  length-sorted (x ∷ xs) = omega (arith, length-insert_sorted x (sorted le xs), length-sorted xs)

  module _ (o : IsOrder le) where
    pub All-le_trans :
        (x y : A) (ys : List A)
        → le x y ≡ true
        → All (λ z. le y z ≡ true) ys
        → All (λ z. le x z ≡ true) ys
    All-le_trans x y [] p h = tt
    All-le_trans x y (z ∷ zs) p h = (o.trans x y z p h.0, All-le_trans x y zs p h.1)

    insert_sorted-IsSorted : (x : A) (xs : List A) → IsSorted xs → IsSorted (insert_sorted le x xs)
    unfolding insert_sorted
    insert_sorted-IsSorted x [] h = (tt, tt)
    insert_sorted-IsSorted x (y ∷ ys) h = elim (Bool-cases (le x y)) [
      | inl q ↦ rw (q, insert_sorted) ((q, All-le_trans x y ys q h.0), h)
      | inr q ↦
          rw (q, insert_sorted)
            (
              All-insert_sorted (λ z. le y z ≡ true) x ys (o.total x y q) h.0,
              insert_sorted-IsSorted x ys h.1,
            )
    ]

    -- `sorted` returns an ordered list.
    pub sorted-IsSorted : (xs : List A) → IsSorted (sorted le xs)
    unfolding sorted
    sorted-IsSorted [] = tt
    sorted-IsSorted (x ∷ xs) = insert_sorted-IsSorted x (sorted le xs) (sorted-IsSorted xs)

    order_refl : (x : A) → le x x ≡ true
    order_refl x = elim (Bool-cases (le x x)) [ inl p ↦ p | inr p ↦ o.total x x p ]

    -- `least` is below all that it was chosen from.
    pub least-le :
        (x : A) (xs : List A)
        → (le (least le x xs) x ≡ true) × All (λ y. le (least le x xs) y ≡ true) xs
    unfolding least
    least-le x [] = (order_refl x, tt)
    least-le x (y ∷ ys) = elim (Bool-cases (le x y)) [
      | inl p ↦
          let (first, rest) = least-le x ys in
          let e : least le x ys ≡ least le x (y ∷ ys) = rw (p, least) in
          subst (λ m. (le m x ≡ true) × All (λ z. le m z ≡ true) (y ∷ ys)) e
            (first, (o.trans (least le x ys) x y first p, rest))
      | inr p ↦
          let (first, rest) = least-le y ys in
          let e : least le y ys ≡ least le x (y ∷ ys) = rw (p, least) in
          subst (λ m. (le m x ≡ true) × All (λ z. le m z ≡ true) (y ∷ ys)) e
            (o.trans (least le y ys) y x first (o.total x y p), (first, rest))
    ]

  pub least-All {κ} : (P : A → Type κ) (x : A) (xs : List A) → P x → All P xs → P (least le x xs)
  unfolding least
  least-All P x [] p ps = p
  least-All P x (y ∷ ys) p ps = elim (Bool-cases (le x y)) [
    | inl q ↦ rw (q, least) (least-All P x ys p ps.1)
    | inr q ↦ rw (q, least) (least-All P y ys ps.0 ps.1)
  ]
