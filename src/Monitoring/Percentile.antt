-- ===== src/Monitoring/Percentile.antt =====
-- `_calculate_percentile` of services/ortools_monitoring.py against the definition of a quantile.
use goveling_ml.Prelude.{
  ℕ, zero, suc, ◌+◌, ◌-◌, ◌*◌, ◌/◌, ◌≤◌, ◌<◌, ◌≡◌, refl, sym, true, false, List, [], ◌∷◌, leb,
  arith, if◌then◌else◌, length, get_or, count_by, min,
}
use mathlib.Core.Path.{subst}
use goveling_ml.Prelude.Sort.{
  sorted, IsSorted, sorted-IsSorted, length-sorted, count_by-sorted, tail-IsSorted,
}
use goveling_ml.Monitoring.Windows.{calculate_percentile}

leb_total : (x y : ℕ) → leb x y ≡ false → leb y x ≡ true
leb_total x y h = ground arith

head-le : (x : ℕ) (xs : List ℕ) (i : ℕ) → IsSorted leb (x ∷ xs) → i < length xs → x ≤ get_or xs i 0
head-le x [] i s h = absurd (omega arith)
head-le x (y ∷ ys) zero s h = ground arith
head-le x (y ∷ ys) (suc i) s h = ground (arith, head-le y ys i s.1)

-- In a sorted list, i + 1 elements are at most the one at i, and n - i at least it.
rank_below :
    (xs : List ℕ) (i : ℕ)
    → IsSorted leb xs
    → i < length xs
    → i + 1 ≤ count_by (λ v. leb v (get_or xs i 0)) xs
rank_below [] i s h = absurd (omega arith)
rank_below (x ∷ xs) zero s h = ground arith
rank_below (x ∷ xs) (suc i) s h =
    ground (arith, head-le x xs i s, rank_below xs i (tail-IsSorted leb x xs s))

all_above :
    (b x : ℕ) (xs : List ℕ)
    → b ≤ x
    → IsSorted leb (x ∷ xs)
    → length (x ∷ xs) ≤ count_by (λ v. leb b v) (x ∷ xs)
all_above b x [] h s = ground arith
all_above b x (y ∷ ys) h s = ground (arith, all_above b y ys)

rank_above :
    (xs : List ℕ) (i : ℕ)
    → IsSorted leb xs
    → i < length xs
    → length xs - i ≤ count_by (λ v. leb (get_or xs i 0) v) xs
rank_above [] i s h = absurd (omega arith)
rank_above (x ∷ xs) zero s h = ground (arith, all_above x x xs)
rank_above (x ∷ xs) (suc i) s h = ground (arith, rank_above xs i (tail-IsSorted leb x xs s))

rank_index :
    (n p : ℕ)
    → (if leb (suc n) (suc n * p / 100) then suc n - 1 else suc n * p / 100)
      ≡ min (suc n * p / 100) n
rank_index n p = ground arith

calculate_percentile_lem :
    (v : ℕ) (vs : List ℕ) (p : ℕ)
    → calculate_percentile (v ∷ vs) p
      ≡ get_or (sorted leb (v ∷ vs)) (min (suc (length vs) * p / 100) (length vs)) 0
unfolding calculate_percentile
calculate_percentile_lem v vs p = rw (length-sorted leb (v ∷ vs), rank_index (length vs) p) refl

-- At least i + 1 of the values are at most r, and at least n - i of the n values at least r.
abbrev pub IsQuantile : List ℕ → ℕ → ℕ → Type 0
IsQuantile vs i r =
    (i + 1 ≤ count_by (λ x. leb x r) vs) × (length vs - i ≤ count_by (λ x. leb r x) vs)

sorted-IsQuantile :
    (vs : List ℕ) (i : ℕ) → i < length vs → IsQuantile vs i (get_or (sorted leb vs) i 0)
sorted-IsQuantile vs i h =
    let s = sorted leb vs in
    let n : length s ≡ length vs = length-sorted leb vs in
    let sortedness = sorted-IsSorted leb leb_total vs in
    let r = get_or s i 0 in
    (
      omega (arith, rank_below s i sortedness (omega arith), count_by-sorted leb (λ x. leb x r) vs),
      omega (arith, rank_above s i sortedness (omega arith), count_by-sorted leb (λ x. leb r x) vs),
    )

-- A percentile of a list that is not empty is a quantile of it: with i = ⌊n p / 100⌋, or n - 1 if
-- that is less, at least i + 1 of the n values are at most the result and at least n - i are at
-- least the result.
pub calculate_percentile-IsQuantile :
    (v : ℕ) (vs : List ℕ) (p : ℕ)
    → IsQuantile
        (v ∷ vs)
        (min (suc (length vs) * p / 100) (length vs))
        (calculate_percentile (v ∷ vs) p)
calculate_percentile-IsQuantile v vs p =
    let i = min (suc (length vs) * p / 100) (length vs) in
    subst (λ r. IsQuantile (v ∷ vs) i r) (sym (calculate_percentile_lem v vs p))
      (sorted-IsQuantile (v ∷ vs) i (omega arith))
