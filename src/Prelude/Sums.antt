-- ===== src/Prelude/Sums.antt =====
-- Sums of signed integers, and of a quantity over a list.
use mathlib.Core.Path.{◌≡◌}
use Prim.Native.Nat.{ℕ, ◌+◌}
use mathlib.Core.List.{List, [], ◌∷◌, ◌++◌, map}
use native.Mathlib.Omega.{arith}
use goveling_ml.Prelude.Lists.{sum}
use goveling_ml.Prelude.Int.{ℤ, pos, negsuc, ◌+ℤ◌}

abbrev pub sum_ℤ : List ℤ → ℤ
sum_ℤ [] = pos 0
sum_ℤ (z ∷ zs) = z +ℤ sum_ℤ zs

pub add_swap : (a b c : ℤ) → (a +ℤ c) +ℤ b ≡ (a +ℤ b) +ℤ c
add_swap (pos a) (pos b) (pos c) = ground arith
add_swap (pos a) (pos b) (negsuc c) = ground arith
add_swap (pos a) (negsuc b) (pos c) = ground arith
add_swap (pos a) (negsuc b) (negsuc c) = ground arith
add_swap (negsuc a) (pos b) (pos c) = ground arith
add_swap (negsuc a) (pos b) (negsuc c) = ground arith
add_swap (negsuc a) (negsuc b) (pos c) = ground arith
add_swap (negsuc a) (negsuc b) (negsuc c) = ground arith

pub add_assoc : (a b c : ℤ) → a +ℤ (b +ℤ c) ≡ (a +ℤ b) +ℤ c
add_assoc (pos a) (pos b) (pos c) = ground arith
add_assoc (pos a) (pos b) (negsuc c) = ground arith
add_assoc (pos a) (negsuc b) (pos c) = ground arith
add_assoc (pos a) (negsuc b) (negsuc c) = ground arith
add_assoc (negsuc a) (pos b) (pos c) = ground arith
add_assoc (negsuc a) (pos b) (negsuc c) = ground arith
add_assoc (negsuc a) (negsuc b) (pos c) = ground arith
add_assoc (negsuc a) (negsuc b) (negsuc c) = ground arith

-- The sum of a quantity over a list.
pub sum-map-append {ℓ} :
    {A : Type ℓ} (f : A → ℕ) (xs ys : List A)
    → sum (map f (xs ++ ys)) ≡ sum (map f xs) + sum (map f ys)
sum-map-append f [] ys = omega arith
sum-map-append f (x ∷ xs) ys = omega (arith, sum-map-append f xs ys)
