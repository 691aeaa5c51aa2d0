-- ===== src/Prelude/Dict.antt =====
-- Python's `dict` with numbers as keys, in the order of insertion.
use Prim.Native.Nat.{ℕ, suc, ◌≤◌, ◌<◌}
use mathlib.Core.Path.{◌≡◌, refl}
use mathlib.Core.Logic.{inl, inr}
use mathlib.Core.Bool.{Bool, false}
use mathlib.Core.Option.{Option, none, some}
use mathlib.Core.List.{List, [], ◌∷◌}
use native.Mathlib.Omega.{arith}
use goveling_ml.Prelude.Tests.{◌==◌, if◌then◌else◌, Bool-cases}
use goveling_ml.Prelude.Lists.{length, filter_by, count_by}

module _ {ℓ} {V : Type ℓ} where
  abbrev pub lookup : ℕ → List (ℕ × V) → Option V
  lookup k [] = none
  lookup k ((j, v) ∷ d) = let rest = lookup k d in if j == k then some v else rest

  -- `d[k] = v`
  abbrev pub set : ℕ → V → List (ℕ × V) → List (ℕ × V)
  set k v [] = (k, v) ∷ []
  set k v ((j, w) ∷ d) = let rest = set k v d in if j == k then (k, v) ∷ d else (j, w) ∷ rest

  -- `del d[k]`
  abbrev pub erase : ℕ → List (ℕ × V) → List (ℕ × V)
  erase k [] = []
  erase k ((j, v) ∷ d) = let rest = erase k d in if j == k then d else (j, v) ∷ rest

  abbrev pub erase_all : List ℕ → List (ℕ × V) → List (ℕ × V)
  erase_all [] d = d
  erase_all (k ∷ ks) d = erase_all ks (erase k d)

  abbrev pub has_key : ℕ → ℕ × V → Bool
  has_key k e = e.0 == k

  -- No key stands twice.
  abbrev pub IsUnique : List (ℕ × V) → Type 0
  IsUnique [] = Unit
  IsUnique ((k, v) ∷ d) = (count_by (has_key k) d ≡ 0) × IsUnique d

  pub lookup-set : (k : ℕ) (v : V) (d : List (ℕ × V)) → lookup k (set k v d) ≡ some v
  lookup-set k v [] = ground arith
  lookup-set k v ((j, w) ∷ d) = elim (Bool-cases (j == k)) [
    | inl same ↦ rw same (ground arith)
    | inr other ↦ rw (other, other) (lookup-set k v d)
  ]

  pub length-set : (k : ℕ) (v : V) (d : List (ℕ × V)) → length (set k v d) ≤ suc (length d)
  length-set k v [] = omega arith
  length-set k v ((j, w) ∷ d) = ground (arith, length-set k v d)

  pub length-erase : (k : ℕ) (d : List (ℕ × V)) → length (erase k d) ≤ length d
  length-erase k [] = omega arith
  length-erase k ((j, w) ∷ d) = ground (arith, length-erase k d)

  pub length-erase_present :
      (k : ℕ) (d : List (ℕ × V)) → 0 < count_by (has_key k) d → length (erase k d) < length d
  length-erase_present k [] h = omega arith
  length-erase_present k ((j, w) ∷ d) h = ground (arith, length-erase_present k d)

  pub length-erase_all : (ks : List ℕ) (d : List (ℕ × V)) → length (erase_all ks d) ≤ length d
  length-erase_all [] d = omega arith
  length-erase_all (k ∷ ks) d = omega (arith, length-erase_all ks (erase k d), length-erase k d)

  count_by-erase :
      (i k : ℕ) (d : List (ℕ × V)) → count_by (has_key i) (erase k d) ≤ count_by (has_key i) d
  count_by-erase i k [] = omega arith
  count_by-erase i k ((j, w) ∷ d) = ground (arith, count_by-erase i k d)

  count_by-set :
      (i k : ℕ) (v : V) (d : List (ℕ × V))
      → (i == k) ≡ false
      → count_by (has_key i) (set k v d) ≡ count_by (has_key i) d
  count_by-set i k v [] h = ground arith
  count_by-set i k v ((j, w) ∷ d) h = ground (arith, count_by-set i k v d h)

  pub count_by-filter :
      (i : ℕ) (keep : ℕ × V → Bool) (d : List (ℕ × V))
      → count_by (has_key i) (filter_by keep d) ≤ count_by (has_key i) d
  count_by-filter i keep [] = omega arith
  count_by-filter i keep ((j, w) ∷ d) = ground (arith, count_by-filter i keep d)

  pub set-IsUnique : (k : ℕ) (v : V) (d : List (ℕ × V)) → IsUnique d → IsUnique (set k v d)
  set-IsUnique k v [] u = (refl, tt)
  set-IsUnique k v ((j, w) ∷ d) u = elim (Bool-cases (j == k)) [
    | inl same ↦ rw same (ground arith)
    | inr other ↦ rw other (omega (arith, count_by-set j k v d other, u.0), set-IsUnique k v d u.1)
  ]

  pub erase-IsUnique : (k : ℕ) (d : List (ℕ × V)) → IsUnique d → IsUnique (erase k d)
  erase-IsUnique k [] u = tt
  erase-IsUnique k ((j, w) ∷ d) u = elim (Bool-cases (j == k)) [
    | inl same ↦ rw same u.1
    | inr other ↦ rw other (omega (arith, count_by-erase j k d, u.0), erase-IsUnique k d u.1)
  ]

  pub erase_all-IsUnique : (ks : List ℕ) (d : List (ℕ × V)) → IsUnique d → IsUnique (erase_all ks d)
  erase_all-IsUnique [] d u = u
  erase_all-IsUnique (k ∷ ks) d u = erase_all-IsUnique ks (erase k d) (erase-IsUnique k d u)

  pub filter-IsUnique :
      (keep : ℕ × V → Bool) (d : List (ℕ × V)) → IsUnique d → IsUnique (filter_by keep d)
  filter-IsUnique keep [] u = tt
  filter-IsUnique keep ((j, w) ∷ d) u = elim (Bool-cases (keep (j, w))) [
    | inl kept ↦ rw kept (omega (arith, count_by-filter j keep d, u.0), filter-IsUnique keep d u.1)
    | inr dropped ↦ rw dropped (filter-IsUnique keep d u.1)
  ]

  pub length-filter :
      (keep : ℕ × V → Bool) (d : List (ℕ × V)) → length (filter_by keep d) ≤ length d
  length-filter keep [] = omega arith
  length-filter keep (e ∷ d) = ground (arith, length-filter keep d)
