-- ===== src/MultiCity/Plan.antt =====
-- The days of a trip: `_simple_daily_distribution` and `_optimize_intercity_hybrid_simple` of
-- services/multi_city_optimizer_simple.py, with the names of the cities and their days.
use Prim.Native.String.{String}
use text.Mathlib.Text.{◌==◌ as str_eq}
use goveling_ml.Prelude.{
  ℕ, zero, suc, ◌+◌, ◌-◌, ◌*◌, ◌/◌, Option, List, [], ◌∷◌, map, max, ltb, ◌==◌, if◌then◌else◌,
  length, take, drop,
}
use goveling_ml.Prelude.Int.{ℤ, pos, pos_part, ◌+ℤ◌, eqb_ℤ}
use goveling_ml.Prelude.Table.{lookup, set}
use goveling_ml.Schedule.Windows.{or_default}
use goveling_ml.MultiCity.{Poi, City}
use goveling_ml.MultiCity.Sequence.{distance_to, find_optimal_city_sequence}
use goveling_ml.MultiCity.Shares.{simple_weight, distribute_days_among_cities}

-- `range(first, first + count)`
abbrev pub range : ℕ → ℕ → List ℕ
range first zero = []
range first (suc count) = first ∷ range (suc first) count

-- `pois[start_idx:end_idx]`
abbrev pub slice : ℕ → ℕ → List Poi → List Poi
slice start_idx end_idx pois = take (end_idx - start_idx) (drop start_idx pois)

abbrev pub day_pois : List Poi → ℕ → ℕ → ℕ → List Poi
day_pois pois days per_day day =
    let start_idx = (day - 1) * per_day in
    slice start_idx (if ltb day days then start_idx + per_day else length pois) pois

abbrev pub per_day_of : List Poi → ℕ → ℕ
per_day_of pois zero = length pois
per_day_of pois (suc n) = max 1 (length pois / suc n)

-- Days below one make an empty range.
unfoldable pub simple_daily_distribution : List Poi → ℤ → List (ℕ × List Poi)
simple_daily_distribution [] days = []
simple_daily_distribution (p ∷ ps) days =
    let n = pos_part days in
    map (λ day. (day, day_pois (p ∷ ps) n (per_day_of (p ∷ ps) n) day)) (range 1 n)

-- `for day_offset in range(city_days): daily_schedules[current_day + day_offset] = ...`
abbrev pub place_days : ℤ → List ℕ → List (ℕ × List Poi) → List (ℤ × List Poi) → List (ℤ × List Poi)
place_days current [] city_schedule schedules = schedules
place_days current (o ∷ os) city_schedule schedules = place_days current os city_schedule (
    set eqb_ℤ (current +ℤ pos o) (or_default (lookup (λ i j. i == j) (o + 1) city_schedule) [])
      schedules)

abbrev pub city_days : List (String × ℤ) → City → ℤ
city_days days_per_city c = or_default (lookup str_eq c.name days_per_city) (pos 1)

abbrev pub schedule_cities :
    List (String × ℤ) → List City → ℤ → List (ℤ × List Poi) → List (ℤ × List Poi)
schedule_cities days_per_city [] current schedules = schedules
schedule_cities days_per_city (c ∷ cs) current schedules =
    let days = city_days days_per_city c in
    schedule_cities days_per_city cs (current +ℤ days) (
      place_days current (range 0 (pos_part days)) (simple_daily_distribution c.pois days)
        schedules)

abbrev pub path_length : (City → City → ℕ) → List City → ℕ
path_length distance [] = 0
path_length distance (c ∷ []) = 0
path_length distance (c ∷ d ∷ cs) = distance c d + path_length distance (d ∷ cs)

-- The labels and the confidence are constants.
pub record MultiCityItinerary : Type 0 where
  pub cities : List City
  pub daily_schedules : List (ℤ × List Poi)
  pub total_duration_days : ℕ
  pub total_distance : ℕ

unfoldable pub optimize_intercity_hybrid_simple :
    (ℤ × ℤ → ℤ × ℤ → ℕ) → List City → ℕ → Option String → MultiCityItinerary
unfolding find_optimal_city_sequence distribute_days_among_cities simple_daily_distribution
optimize_intercity_hybrid_simple geodesic cities days start_city =
    let sequence = find_optimal_city_sequence geodesic cities start_city in
    let days_per_city = distribute_days_among_cities simple_weight sequence days in
    record {
      cities = sequence;
      daily_schedules = schedule_cities days_per_city sequence (pos 1) [];
      total_duration_days = days;
      total_distance = path_length (distance_to geodesic) sequence;
    }
