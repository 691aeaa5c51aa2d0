-- ===== src/Prelude/Sort.antt =====
-- Python's stable `sorted`, as an insertion sort over the order of the keys.
use Prim.Native.Nat.{suc}
use mathlib.Core.Path.{◌≡◌, refl}
use mathlib.Core.Logic.{inl, inr}
use mathlib.Core.Bool.{Bool, true, false}
use mathlib.Core.List.{List, [], ◌∷◌, Perm}
use mathlib.Core.List.Perm
use native.Mathlib.Omega.{arith}
use goveling_ml.Prelude.Tests.{if◌then◌else◌, Bool-cases}
use goveling_ml.Prelude.Lists.{length, count_by}

module _ {ℓ} {A : Type ℓ} (le : A → A → Bool) where
  unfoldable pub insert : A → List A → List A
  insert x [] = x ∷ []
  insert x (y ∷ ys) = if le x y then x ∷ y ∷ ys else y ∷ insert x ys

  unfoldable pub sorted : List A → List A
  unfolding insert
  sorted [] = []
  sorted (x ∷ xs) = insert x (sorted xs)

  -- Every element is in order with the next one.
  abbrev pub IsSorted : List A → Type 0
  IsSorted [] = Unit
  IsSorted (x ∷ []) = Unit
  IsSorted (x ∷ y ∷ ys) = (le x y ≡ true) × IsSorted (y ∷ ys)

  pub tail-IsSorted : (x : A) (xs : List A) → IsSorted (x ∷ xs) → IsSorted xs
  tail-IsSorted x [] s = tt
  tail-IsSorted x (y ∷ ys) s = s.1

  insert-perm : (x : A) (xs : List A) → Perm (insert x xs) (x ∷ xs)
  unfolding insert
  insert-perm x [] = Perm.refl (x ∷ [])
  insert-perm x (y ∷ ys) = elim (Bool-cases (le x y)) [
    | inl before ↦ rw before (Perm.refl (x ∷ y ∷ ys))
    | inr after ↦ rw after (Perm.trans (Perm.cons y (insert-perm x ys)) (Perm.swap x y ys))
  ]

  pub sorted-perm : (xs : List A) → Perm (sorted xs) xs
  unfolding sorted
  sorted-perm [] = Perm.refl []
  sorted-perm (x ∷ xs) = Perm.trans (insert-perm x (sorted xs)) (Perm.cons x (sorted-perm xs))

  pub length-insert : (x : A) (xs : List A) → length (insert x xs) ≡ suc (length xs)
  unfolding insert
  length-insert x [] = refl
  length-insert x (y ∷ ys) = ground (arith, length-insert x ys)

  pub length-sorted : (xs : List A) → length (sorted xs) ≡ length xs
  unfolding sorted
  length-sorted [] = refl
  length-sorted (x ∷ xs) = omega (arith, length-insert x (sorted xs), length-sorted xs)

module _ {ℓ} {A : Type ℓ} (le : A → A → Bool)
    (total : (x y : A) → le x y ≡ false → le y x ≡ true) where
  insert_after-IsSorted :
      (x y : A) (ys : List A)
      → le y x ≡ true
      → IsSorted le (y ∷ ys)
      → IsSorted le (insert le x ys)
      → IsSorted le (y ∷ insert le x ys)
  unfolding insert
  insert_after-IsSorted x y [] h s i = (h, tt)
  insert_after-IsSorted x y (z ∷ zs) h s i = elim (Bool-cases (le x z)) [
    | inl before ↦ ground arith
    | inr after ↦ ground arith
  ]

  insert-IsSorted : (x : A) (xs : List A) → IsSorted le xs → IsSorted le (insert le x xs)
  unfolding insert
  insert-IsSorted x [] s = tt
  insert-IsSorted x (y ∷ ys) s = elim (Bool-cases (le x y)) [
    | inl before ↦ rw before (before, s)
    | inr after ↦ rw after (
        insert_after-IsSorted x y ys (total x y after) s
          (insert-IsSorted x ys (tail-IsSorted le y ys s)))
  ]

  pub sorted-IsSorted : (xs : List A) → IsSorted le (sorted le xs)
  unfolding sorted
  sorted-IsSorted [] = tt
  sorted-IsSorted (x ∷ xs) = insert-IsSorted x (sorted le xs) (sorted-IsSorted xs)

module _ {ℓ} {A : Type ℓ} (le : A → A → Bool) (p : A → Bool) where
  count_by-insert : (x : A) (xs : List A) → count_by p (insert le x xs) ≡ count_by p (x ∷ xs)
  unfolding insert
  count_by-insert x [] = refl
  count_by-insert x (y ∷ ys) = elim (Bool-cases (le x y)) [
    | inl before ↦ rw before refl
    | inr after ↦ rw after (omega (arith, count_by-insert x ys))
  ]

  pub count_by-sorted : (xs : List A) → count_by p (sorted le xs) ≡ count_by p xs
  unfolding sorted
  count_by-sorted [] = refl
  count_by-sorted (x ∷ xs) = omega (arith, count_by-insert x (sorted le xs), count_by-sorted xs)
