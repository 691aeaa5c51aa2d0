-- ===== src/Coordinates.antt =====
-- The validation of coordinates in utils/hybrid_optimizer_v31.py. Coordinates are integers in
-- millionths of a degree; a value that `float` rejects is `unreadable`.
pub mod Ranges
pub mod Correction
use goveling_ml.Prelude.{
  ℕ, ◌+◌, Bool, true, false, ◌&&◌, not, Option, none, some, List, [], ◌∷◌, ltb, leb, if◌then◌else◌,
}
use goveling_ml.Prelude.Int.{ℤ, pos, negsuc, abs, ◌-ℤ◌, ◌+ℤ◌, ltb_ℤ, leb_ℤ}

pub data Value : Type 0 where
  number : ℤ → Value
  unreadable : Value

-- The keys of a place that the validation reads or writes; `identity` stands for the others.
pub record RawPlace : Type 0 where
  pub identity : ℕ
  pub lat : Option Value
  pub lon : Option Value
  pub coordinates_corrected : Bool
  pub coordinates_swapped : Bool

abbrev pub degrees_90 : ℤ
degrees_90 = pos 90000000

abbrev pub minus_90 : ℤ
minus_90 = negsuc 89999999

abbrev pub degrees_180 : ℤ
degrees_180 = pos 180000000

abbrev pub minus_180 : ℤ
minus_180 = negsuc 179999999

abbrev pub degrees_360 : ℤ
degrees_360 = pos 360000000

abbrev pub minus_360 : ℤ
minus_360 = negsuc 359999999

abbrev pub in_range : ℤ → ℤ → Bool
in_range lat lon =
    leb_ℤ minus_90 lat && leb_ℤ lat degrees_90 && leb_ℤ minus_180 lon && leb_ℤ lon degrees_180

abbrev pub correct_lat : ℤ → ℤ
correct_lat lat =
    if ltb_ℤ degrees_90 lat then degrees_90 else if ltb_ℤ lat minus_90 then minus_90 else lat

abbrev pub correct_lon : ℤ → ℤ
correct_lon lon =
    if ltb_ℤ degrees_180 lon
    then (if leb_ℤ lon degrees_360 then lon -ℤ degrees_360 else degrees_180)
    else if ltb_ℤ lon minus_180
    then (if leb_ℤ minus_360 lon then lon +ℤ degrees_360 else minus_180)
    else lon

-- At most five degrees apart.
abbrev pub is_close : ℤ → ℤ → Bool
is_close a b = leb (abs (a -ℤ b)) 5000000

unfoldable pub attempt_coordinate_correction : ℤ → ℤ → Option (ℤ × ℤ)
attempt_coordinate_correction lat lon =
    if is_close lat (correct_lat lat) && is_close lon (correct_lon lon)
    then some (correct_lat lat, correct_lon lon)
    else none

abbrev pub default_coordinates : ℤ × ℤ
default_coordinates = (negsuc 33448899, negsuc 70669299)

abbrev pub or_default_coordinates : Option (ℤ × ℤ) → ℤ × ℤ
or_default_coordinates none = default_coordinates
or_default_coordinates (some c) = c

abbrev pub validate_numbers : ℤ → ℤ → ℤ × ℤ
validate_numbers lat lon =
    if in_range lat lon
    then (lat, lon)
    else or_default_coordinates (attempt_coordinate_correction lat lon)

unfoldable pub validate_single_coordinate : Value → Value → ℤ × ℤ
unfolding attempt_coordinate_correction
validate_single_coordinate (number lat) (number lon) = validate_numbers lat lon
validate_single_coordinate (number lat) unreadable = default_coordinates
validate_single_coordinate unreadable lon = default_coordinates

-- What the loop does with one place: the place it keeps, if any, and what it adds to
-- `invalid_count`.
pub record Verdict : Type 0 where
  pub kept : Option RawPlace
  pub invalid : ℕ

abbrev pub corrected : RawPlace → Option (ℤ × ℤ) → Verdict
corrected p none = record { kept = none; invalid = 1 }
corrected p (some (lat, lon)) = record {
  kept =
      some (record p {
        lat = some (number lat);
        lon = some (number lon);
        coordinates_corrected = true;
      });
  invalid = 1;
}

abbrev pub swapped : RawPlace → ℤ → ℤ → RawPlace
swapped p lat lon = record p {
  lat = some (number lon);
  lon = some (number lat);
  coordinates_swapped = true;
}

abbrev pub validate_place_at : RawPlace → ℤ → ℤ → Verdict
validate_place_at p lat lon =
    if not (in_range lat lon)
    then corrected p (attempt_coordinate_correction lat lon)
    else if ltb (abs lat) 1000 && ltb (abs lon) 1000
    then record { kept = none; invalid = 1 }
    else if ltb (abs lon) (abs lat)
        && ltb 90000000 (abs lon)
        && leb_ℤ minus_90 lon
        && leb_ℤ lon degrees_90
        && leb_ℤ minus_180 lat
        && leb_ℤ lat degrees_180
    then record { kept = some (swapped p lat lon); invalid = 0 }
    else record { kept = some p; invalid = 0 }

-- `place.get(key, 0)`
abbrev pub value_or_zero : Option Value → Value
value_or_zero none = number (pos 0)
value_or_zero (some v) = v

abbrev pub validate_values : RawPlace → Value → Value → Verdict
validate_values p (number lat) (number lon) = validate_place_at p lat lon
validate_values p (number lat) unreadable = record { kept = none; invalid = 1 }
validate_values p unreadable lon = record { kept = none; invalid = 1 }

unfoldable pub validate_place : RawPlace → Verdict
unfolding attempt_coordinate_correction
validate_place p = validate_values p (value_or_zero p.lat) (value_or_zero p.lon)

abbrev pub collect : Option RawPlace → List RawPlace → List RawPlace
collect none ps = ps
collect (some p) ps = p ∷ ps

-- The validated places, and `invalid_count`.
unfoldable pub validate_coordinates : List RawPlace → List RawPlace × ℕ
unfolding validate_place
validate_coordinates [] = ([], 0)
validate_coordinates (p ∷ ps) =
    let rest = validate_coordinates ps in
    let v = validate_place p in (collect v.kept rest.0, v.invalid + rest.1)
