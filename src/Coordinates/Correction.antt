-- ===== src/Coordinates/Correction.antt =====
-- What `_attempt_coordinate_correction` corrects (utils/hybrid_optimizer_v31.py).
use goveling_ml.Prelude.{
  ◌≡◌, refl, sym, ◌∙◌, inl, inr, true, ◌&&◌, none, some, leb, arith, if◌then◌else◌, Bool-cases,
}
use goveling_ml.Prelude.Int.{ℤ, pos, negsuc, abs, leb_ℤ}
use goveling_ml.Coordinates.{
  in_range, degrees_90, minus_90, degrees_180, minus_180, correct_lat, correct_lon, is_close,
  attempt_coordinate_correction,
}

lat_close : (lat : ℤ) → is_close lat (correct_lat lat) ≡ leb (abs lat) 95000000
lat_close (pos n) = ground arith
lat_close (negsuc n) = ground arith

lon_close : (lon : ℤ) → is_close lon (correct_lon lon) ≡ leb (abs lon) 180000000
lon_close (pos n) = ground arith
lon_close (negsuc n) = ground arith

lon_kept : (lon : ℤ) → leb (abs lon) 180000000 ≡ true → correct_lon lon ≡ lon
lon_kept (pos n) h = ground arith
lon_kept (negsuc n) h = ground arith

-- A correction succeeds exactly for a latitude of at most 95 and a longitude of at most 180 degrees,
-- either way. It gives the nearest latitude in the range, and the longitude unchanged: one that is out
-- of range is never corrected.
pub attempt_coordinate_correction_lem :
    (lat lon : ℤ)
    → attempt_coordinate_correction lat lon ≡ (
        if leb (abs lat) 95000000 && leb (abs lon) 180000000
        then some (correct_lat lat, lon)
        else none)
unfolding attempt_coordinate_correction
attempt_coordinate_correction_lem lat lon = elim (Bool-cases (leb (abs lon) 180000000)) [
  | inl kept ↦ rw (lat_close lat, lon_close lon, kept, lon_kept lon kept) refl
  | inr far ↦ elim (Bool-cases (leb (abs lat) 95000000)) [
    | inl x ↦ rw (lat_close lat, lon_close lon, far, x) refl
    | inr y ↦ rw (lat_close lat, lon_close lon, y) refl
  ]
]

correct_lat-range :
    (lat : ℤ) → (leb_ℤ minus_90 (correct_lat lat) && leb_ℤ (correct_lat lat) degrees_90) ≡ true
correct_lat-range (pos n) = ground arith
correct_lat-range (negsuc n) = ground arith

lon_range :
    (lon : ℤ)
    → leb (abs lon) 180000000 ≡ true
    → (leb_ℤ minus_180 lon && leb_ℤ lon degrees_180) ≡ true
lon_range (pos n) h = ground arith
lon_range (negsuc n) h = ground arith

none-some : {A : Type 0} {a : A} → none ≡ some a → ⊥
none-some e = cc

-- What a correction gives lies in the ranges.
pub corrected-in_range :
    (lat lon : ℤ) (c : ℤ × ℤ)
    → attempt_coordinate_correction lat lon ≡ some c
    → in_range c.0 c.1 ≡ true
corrected-in_range lat lon c e =
    let x = attempt_coordinate_correction_lem lat lon in
    elim (Bool-cases (leb (abs lat) 95000000 && leb (abs lon) 180000000)) [
      | inl close ↦
          (let same : some (correct_lat lat, lon) ≡ some c = sym (rw close at x) ∙ e in
            let f : c ≡ (correct_lat lat, lon) = cc in
            rw f (ground (arith, correct_lat-range lat, lon_range lon (ground (arith, close)))))
      | inr far ↦ absurd (none-some (sym (rw far at x) ∙ e))
    ]
