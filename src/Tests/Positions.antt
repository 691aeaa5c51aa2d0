-- ===== src/Tests/Positions.antt =====
-- Coordinates inside and outside their ranges, for the validation of utils/hybrid_optimizer_v31.py.
use goveling_ml.Prelude.{ℕ, ◌+◌, ◌≤◌, ◌≡◌, refl, some, List, [], ◌∷◌, length, All, true, false}
use goveling_ml.Prelude.Int.{pos, negsuc}
use goveling_ml.Coordinates.{Value, number, unreadable, RawPlace, validate_coordinates}
use goveling_ml.Coordinates.Ranges.{IsInRange, NotSwapped, validate_coordinates_lem}

abbrev raw : ℕ → Value → Value → RawPlace
raw n lat lon = record {
  identity = n;
  lat = some lat;
  lon = some lon;
  coordinates_corrected = false;
  coordinates_swapped = false;
}

-- Santiago; two degrees too far north; a longitude of 182 degrees; the origin; a text.
abbrev places : List RawPlace
places =
    raw 1 (number (negsuc 33448899)) (number (negsuc 70669299))
    ∷ raw 2 (number (pos 92000000)) (number (pos 10000000))
    ∷ raw 3 (number (pos 10000000)) (number (pos 182000000))
    ∷ raw 4 (number (pos 0)) (number (pos 0))
    ∷ raw 5 unreadable (number (pos 0))
    ∷ []

validated : validate_coordinates places ≡ (
  raw 1 (number (negsuc 33448899)) (number (negsuc 70669299))
      ∷ record (raw 2 (number (pos 90000000)) (number (pos 10000000))) {
        coordinates_corrected = true;
      }
      ∷ [],
  4,
)
unfolding validate_coordinates
validated = refl

validate_coordinates_lem_example :
    All IsInRange (validate_coordinates places).0
    × (length places ≤ length (validate_coordinates places).0 + (validate_coordinates places).1)
    × (All NotSwapped places → All NotSwapped (validate_coordinates places).0)
validate_coordinates_lem_example = validate_coordinates_lem places
