-- ===== src/Decision/Flags.antt =====
-- Feature flags and geography in utils/ortools_decision_engine.py. `user_hash` is the number of the
-- MD5 of a user's name, `lower` Python's `str.lower`, and `automatic_city` the name that the DBSCAN
-- clusters or the average of the coordinates give where no place names a city.
use Prim.Native.String.{String}
use text.Mathlib.Text.{◌==◌ as str_eq}
use goveling_ml.Prelude.{
  ℕ, ◌%◌, Bool, true, false, ◌&&◌, not, Option, none, some, List, [], ◌∷◌, ◌++◌, ltb, leb, ◌==◌,
  if◌then◌else◌, length,
}
use goveling_ml.Schedule.Windows.{or_default}
use goveling_ml.Decision.{
  Place, Request, Settings, spread_too_large, too_many_places, FeatureFlags, GeoAnalysis,
}
use goveling_ml.Decision.Complexity.{or_else, member, square_km, calculate_geographic_spread}

-- `if city`: an empty text is passed over.
abbrev pub unless_empty : Option String → Option String
unless_empty none = none
unless_empty (some s) = if str_eq s "" then none else some s

abbrev pub first_city : List Place → Option String
first_city [] = none
first_city (p ∷ ps) =
    let rest = first_city ps in or_else (unless_empty (or_else p.city p.locality)) rest

abbrev pub is_eligible : (String → String) → Settings → Option String → Bool
is_eligible lower s none = true
is_eligible lower s (some city) =
    not (member (lower city) s.excluded_cities)
    && not (not (length s.allowed_cities == 0) && not (member (lower city) s.allowed_cities))

module _ (lower : String → String) (automatic_city : List Place → Option String)
    (user_hash : String → ℕ) where
  unfoldable pub detect_city : List Place → Option String
  detect_city [] = none
  detect_city (p ∷ ps) = or_else (first_city (p ∷ ps)) (automatic_city (p ∷ ps))

  unfoldable pub check_geo_eligibility : Settings → Request → Bool
  unfolding detect_city
  check_geo_eligibility s r =
      if s.restricts_cities then is_eligible lower s (detect_city r.places) else true

  unfoldable pub check_user_eligibility : Settings → Request → Bool
  check_user_eligibility s r =
      if leb 100 s.user_percentage
      then true
      else if leb s.user_percentage 0
      then false
      else ltb (user_hash (or_default (or_else r.user_id r.session_id) "anonymous") % 100)
          s.user_percentage

  unfoldable pub check_feature_flags : Settings → Request → FeatureFlags
  unfolding check_geo_eligibility check_user_eligibility
  check_feature_flags s r =
      if not s.enable_ortools
      then record { enabled = false; user_eligible = false; geo_eligible = false }
      else record {
        enabled = s.enable_ortools;
        user_eligible = check_user_eligibility s r;
        geo_eligible = check_geo_eligibility s r;
      }

-- No places: `appropriate_for_ortools` is missing, and is taken as True.
abbrev pub analyze_places : Settings → List Place → GeoAnalysis
analyze_places s [] = record { appropriate_for_ortools = true; reasons = [] }
analyze_places s (p ∷ ps) =
    let places : List Place = p ∷ ps in
    let far = ltb (square_km s.max_distance_km) (calculate_geographic_spread places) in
    let many = ltb s.max_places (length places) in
    record {
      appropriate_for_ortools = not far && not many;
      reasons =
          (if far then spread_too_large ∷ [] else [])
          ++ (if many then too_many_places (length places) ∷ [] else []);
    }

unfoldable pub analyze_geography : Settings → Request → GeoAnalysis
unfolding calculate_geographic_spread
analyze_geography s r = analyze_places s r.places
