-- ===== src/Coordinates/Ranges.antt =====
-- Which places `validate_coordinates` keeps (utils/hybrid_optimizer_v31.py).
use goveling_ml.Prelude.{
  ◌+◌, ◌≤◌, ◌≡◌, refl, ◌∙◌, inl, inr, true, false, ◌&&◌, Option, none, some, List, [], ◌∷◌, ltb,
  arith, length, All, Bool-cases, Option-cases,
}
use mathlib.Core.Path.{subst}
use goveling_ml.Prelude.Int.{ℤ, pos, negsuc, abs}
use goveling_ml.Coordinates.{
  Value, number, unreadable, RawPlace, in_range, attempt_coordinate_correction,
  validate_single_coordinate, validate_place_at, validate_values, value_or_zero, validate_place,
  validate_coordinates, corrected, collect,
}
use goveling_ml.Coordinates.Correction.{corrected-in_range}

-- Both coordinates can be read, a missing one as 0, and lie in their ranges.
abbrev pub IsInRange : RawPlace → Type 0
IsInRange p =
    (lat : ℤ) × (lon : ℤ) × (value_or_zero p.lat ≡ number lat)
    × (value_or_zero p.lon ≡ number lon)
    × (in_range lat lon ≡ true)

-- No place of the verdict is out of range, or has been marked as swapped.
abbrev IsSound : RawPlace → Option RawPlace → Type 0
IsSound p none = Unit
IsSound p (some q) =
    IsInRange q × (q.identity ≡ p.identity) × (q.coordinates_swapped ≡ p.coordinates_swapped)

-- A latitude in its range is never farther from 0 than a longitude beyond 90 degrees.
never_swapped :
    (lat lon : ℤ)
    → in_range lat lon ≡ true
    → (ltb (abs lon) (abs lat) && ltb 90000000 (abs lon)) ≡ false
never_swapped (pos a) (pos b) h = ground arith
never_swapped (pos a) (negsuc b) h = ground arith
never_swapped (negsuc a) (pos b) h = ground arith
never_swapped (negsuc a) (negsuc b) h = ground arith

corrected-IsSound :
    (p : RawPlace) (c : Option (ℤ × ℤ))
    → ((d : ℤ × ℤ) → c ≡ some d → in_range d.0 d.1 ≡ true)
    → IsSound p (corrected p c).kept
corrected-IsSound p none h = tt
corrected-IsSound p (some (lat, lon)) h = ((lat, lon, refl, refl, h (lat, lon) refl), refl, refl)

place_at-IsSound :
    (p : RawPlace) (lat lon : ℤ)
    → value_or_zero p.lat ≡ number lat
    → value_or_zero p.lon ≡ number lon
    → IsSound p (validate_place_at p lat lon).kept
place_at-IsSound p lat lon e f = elim (Bool-cases (in_range lat lon)) [
  | inr out ↦ rw out (
      corrected-IsSound p (attempt_coordinate_correction lat lon)
        (λ d g. corrected-in_range lat lon d g))
  | inl fine ↦ elim (Bool-cases (ltb (abs lat) 1000 && ltb (abs lon) 1000)) [
    | inl suspicious ↦ rw (fine, suspicious) tt
    | inr far ↦ rw (fine, far, never_swapped lat lon fine) ((lat, lon, e, f, fine), refl, refl)
  ]
]

values-IsSound :
    (p : RawPlace) (v w : Value)
    → value_or_zero p.lat ≡ v
    → value_or_zero p.lon ≡ w
    → IsSound p (validate_values p v w).kept
values-IsSound p (number lat) (number lon) e f = place_at-IsSound p lat lon e f
values-IsSound p (number lat) unreadable e f = tt
values-IsSound p unreadable w e f = tt

place-IsSound : (p : RawPlace) → IsSound p (validate_place p).kept
unfolding validate_place
place-IsSound p = values-IsSound p (value_or_zero p.lat) (value_or_zero p.lon) refl refl

abbrev pub NotSwapped : RawPlace → Type 0
NotSwapped p = (p.coordinates_swapped ≡ false)

collect-All :
    (P : RawPlace → Type 0) (o : Option RawPlace) (qs : List RawPlace)
    → ((q : RawPlace) → o ≡ some q → P q)
    → All P qs
    → All P (collect o qs)
collect-All P none qs h a = a
collect-All P (some q) qs h a = (h q refl, a)

sound : (p q : RawPlace) (o : Option RawPlace) → IsSound p o → o ≡ some q → IsSound p (some q)
sound p q o s e = subst (λ x. IsSound p x) e s

counted :
    (p : RawPlace) (v w : Value) (qs : List RawPlace)
    → length qs + 1
      ≤ length (collect (validate_values p v w).kept qs) + (validate_values p v w).invalid
counted p (number lat) (number lon) qs = elim (Bool-cases (in_range lat lon)) [
  | inr out ↦ elim (Option-cases (attempt_coordinate_correction lat lon)) [
    | inl far ↦ rw (out, far) (omega arith)
    | inr ((a, b), close) ↦ rw (out, close) (omega arith)
  ]
  | inl fine ↦ elim (Bool-cases (ltb (abs lat) 1000 && ltb (abs lon) 1000)) [
    | inl suspicious ↦ rw (fine, suspicious) (omega arith)
    | inr far ↦ rw (fine, far, never_swapped lat lon fine) (omega arith)
  ]
]
counted p (number lat) unreadable qs = omega arith
counted p unreadable w qs = omega arith

counted_place :
    (p : RawPlace) (qs : List RawPlace)
    → length qs + 1 ≤ length (collect (validate_place p).kept qs) + (validate_place p).invalid
unfolding validate_place
counted_place p qs = counted p (value_or_zero p.lat) (value_or_zero p.lon) qs

-- Whatever the places are, those that the validation keeps have coordinates that can be read and lie
-- in their ranges; every place is kept or counted as invalid; and none is marked as swapped if none
-- was before.
pub validate_coordinates_lem :
    (ps : List RawPlace)
    → All IsInRange (validate_coordinates ps).0
      × (length ps ≤ length (validate_coordinates ps).0 + (validate_coordinates ps).1)
      × (All NotSwapped ps → All NotSwapped (validate_coordinates ps).0)
unfolding validate_coordinates
validate_coordinates_lem [] = (tt, omega arith, λ h. tt)
validate_coordinates_lem (p ∷ ps) =
    let (valid, many, same) = validate_coordinates_lem ps in
    let s = place-IsSound p in
    let rest = (validate_coordinates ps).0 in
    (
      collect-All IsInRange (validate_place p).kept rest (λ q e. (sound p q _ s e).0) valid,
      omega (arith, many, counted_place p rest),
      λ h.
          collect-All NotSwapped (validate_place p).kept rest (λ q e. (sound p q _ s e).2 ∙ h.0)
            (same h.1),
    )

-- A single pair of coordinates always gives a pair in the ranges.
pub validate_single_coordinate-in_range :
    (lat lon : Value) → let c = validate_single_coordinate lat lon in in_range c.0 c.1 ≡ true
unfolding validate_single_coordinate
validate_single_coordinate-in_range (number lat) (number lon) =
    elim (Bool-cases (in_range lat lon)) [
      | inl fine ↦ rw fine fine
      | inr out ↦ elim (Option-cases (attempt_coordinate_correction lat lon)) [
        | inl far ↦ rw (out, far) (ground arith)
        | inr (c, close) ↦ rw (out, close) (corrected-in_range lat lon c close)
      ]
    ]
validate_single_coordinate-in_range (number lat) unreadable = ground arith
validate_single_coordinate-in_range unreadable lon = ground arith
