-- ===== src/Constraints/Limits.antt =====
-- The limits of a trip in services/ortools_advanced_constraints.py: vehicles, hotels and travel
-- between cities. `total_distance` is what `_estimate_total_distance` adds up.
use Prim.Native.String.{String}
use text.Mathlib.Text.{◌==◌ as str_eq}
use goveling_ml.Prelude.{
  ℕ, ◌+◌, ◌-◌, ◌*◌, ◌/◌, Bool, false, ◌||◌, Option, List, [], ◌∷◌, map, max, ltb, leb,
  if◌then◌else◌,
}
use goveling_ml.Schedule.Windows.{or_default}
use goveling_ml.Constraints.{Preferences}

-- The daily distance is a fraction.
pub record VehicleConstraints : Type 0 where
  pub max_daily_num : ℕ
  pub max_daily_den : ℕ
  pub max_continuous_drive_hours : ℕ
  pub required_rest_minutes : ℕ
  pub fuel_stops_required : Bool

abbrev pub sum_of_legs {ℓ} : {A : Type ℓ} → (A → A → ℕ) → List A → ℕ
sum_of_legs geodesic [] = 0
sum_of_legs geodesic (a ∷ []) = 0
sum_of_legs geodesic (a ∷ b ∷ cs) = geodesic a b + sum_of_legs geodesic (b ∷ cs)

-- Half as much again as the average of a day, but at most 500 km.
abbrev pub driving : ℕ → ℕ → VehicleConstraints
driving total days =
    let share = 3 * total in
    let parts = 2 * max 1 days in
    record {
      max_daily_num = if leb (500000 * parts) share then 500000 else share;
      max_daily_den = if leb (500000 * parts) share then 1 else parts;
      max_continuous_drive_hours = 8;
      required_rest_minutes = 30;
      fuel_stops_required = ltb 300000 total;
    }

unfoldable pub generate_vehicle_constraints : ℕ → Preferences → VehicleConstraints
generate_vehicle_constraints total prefs =
    let mode = or_default prefs.transport_mode "driving" in
    if str_eq mode "walking"
    then record {
      max_daily_num = 15000;
      max_daily_den = 1;
      max_continuous_drive_hours = 0;
      required_rest_minutes = 60;
      fuel_stops_required = false;
    }
    else if str_eq mode "driving"
    then driving total (or_default prefs.duration_days 1)
    else if str_eq mode "public_transport"
    then record {
      max_daily_num = 200000;
      max_daily_den = 1;
      max_continuous_drive_hours = 4;
      required_rest_minutes = 15;
      fuel_stops_required = false;
    }
    else record {
      max_daily_num = 500000;
      max_daily_den = 1;
      max_continuous_drive_hours = 8;
      required_rest_minutes = 30;
      fuel_stops_required = false;
    }

-- `get_constraint_summary`'s test that the trip can be driven in its days.
unfoldable pub is_feasible : ℕ → Preferences → Bool
unfolding generate_vehicle_constraints
is_feasible total prefs =
    let v = generate_vehicle_constraints total prefs in
    leb (total * v.max_daily_den) (v.max_daily_num * or_default prefs.duration_days 1)

pub record AccommodationConstraint : Type 0 where
  pub max_distance_to_activities : ℕ
  pub min_nights_per_city : ℕ
  pub max_nights_per_city : ℕ
  pub budget_per_night : ℕ
  pub preferred_location : String

abbrev pub budget_of : String → ℕ
budget_of level =
    if str_eq level "low"
    then 50
    else if str_eq level "high"
    then 200
    else if str_eq level "luxury"
    then 400
    else 100

abbrev pub get_city_radius : String → ℕ
get_city_radius size =
    if str_eq size "small"
    then 10000
    else if str_eq size "large"
    then 35000
    else if str_eq size "metro"
    then 50000
    else 20000

abbrev pub get_preferred_location : String → String → String
get_preferred_location level size =
    if str_eq level "low" || str_eq level "mid"
    then "budget_friendly"
    else if str_eq size "small" || str_eq size "medium"
    then "city_center"
    else "near_attractions"

-- A city is its size and the number of its places.
abbrev pub accommodation : String → Option String × ℕ → AccommodationConstraint
accommodation level (size, pois_count) =
    let city_size = or_default size "medium" in
    let recommended_nights = max 1 (pois_count / 3) in
    record {
      max_distance_to_activities = get_city_radius city_size;
      min_nights_per_city = max 1 (recommended_nights - 1);
      max_nights_per_city = recommended_nights + 2;
      budget_per_night = budget_of level;
      preferred_location = get_preferred_location level city_size;
    }

unfoldable pub generate_accommodation_constraints :
    List (Option String × ℕ) → Preferences → List AccommodationConstraint
generate_accommodation_constraints cities prefs =
    map (accommodation (or_default prefs.budget "mid")) cities

pub record InterCityConstraint : Type 0 where
  pub max_intercity_distance : ℕ
  pub prefer_flights_over : ℕ
  pub max_daily_cities : ℕ
  pub min_time_per_city_hours : ℕ

-- The distances of the cities are computed, but not used.
unfoldable pub generate_intercity_constraints : Preferences → InterCityConstraint
generate_intercity_constraints prefs =
    let mode = or_default prefs.transport_mode "driving" in
    if str_eq mode "driving"
    then record {
      max_intercity_distance = 800000;
      prefer_flights_over = 1200000;
      max_daily_cities = 2;
      min_time_per_city_hours = 8;
    }
    else if str_eq mode "flying"
    then record {
      max_intercity_distance = 5000000;
      prefer_flights_over = 300000;
      max_daily_cities = 3;
      min_time_per_city_hours = 6;
    }
    else record {
      max_intercity_distance = 500000;
      prefer_flights_over = 800000;
      max_daily_cities = 2;
      min_time_per_city_hours = 8;
    }
