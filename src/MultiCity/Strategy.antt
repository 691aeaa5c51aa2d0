-- ===== src/MultiCity/Strategy.antt =====
-- Which way a trip is planned: `_determine_optimization_strategy` of
-- services/multi_city_optimizer.py and of its simple version, and `analyze_multi_city_complexity` of
-- services/intercity_service.py. Distances are in metres.
use goveling_ml.Prelude.{
  ℕ, ◌+◌, Bool, ◌&&◌, ◌||◌, Option, none, some, List, [], ◌∷◌, map, max, ltb, leb, ◌==◌,
  if◌then◌else◌, length, sum, ◌++◌,
}
use goveling_ml.Prelude.Int.{ℤ}
use goveling_ml.Decision.Complexity.{distinct}
use goveling_ml.MultiCity.{City}
use goveling_ml.MultiCity.Sequence.{distance_to}

pub data OptimizationStrategy : Type 0 where
  single_city_ortools intercity_hybrid multi_country_complex custom_eurotrip : OptimizationStrategy

pub record OptimizationConfig : Type 0 where
  pub intercity_threshold : ℕ
  pub international_threshold : ℕ

-- The size of the set of countries.
abbrev pub countries_count : List City → ℕ
countries_count cities = length (distinct (map (λ c. c.country) cities))

module _ (geodesic : ℤ × ℤ → ℤ × ℤ → ℕ) where
  -- The distances of a city to those after it, for one city after the other.
  abbrev pub distances : List City → List ℕ
  distances [] = []
  distances (c ∷ cs) = map (distance_to geodesic c) cs ++ distances cs

  abbrev pub max_distance : List City → ℕ
  max_distance cities = largest 0 (distances cities)
    where
      largest : ℕ → List ℕ → ℕ
      largest best [] = best
      largest best (d ∷ ds) = largest (max best d) ds

  unfoldable pub determine_optimization_strategy :
      OptimizationConfig → List City → OptimizationStrategy
  determine_optimization_strategy config cities =
      let far = max_distance cities in
      if leb (length cities) 1
      then single_city_ortools
      else if length cities == 2 && leb far config.intercity_threshold
      then intercity_hybrid
      else if ltb 2 (countries_count cities) || ltb config.international_threshold far
      then multi_country_complex
      else if leb (length cities) 4 && leb far config.international_threshold
      then intercity_hybrid
      else custom_eurotrip

  unfoldable pub determine_strategy_simple : OptimizationConfig → List City → OptimizationStrategy
  determine_strategy_simple config cities =
      let far = max_distance cities in
      if leb (length cities) 1
      then single_city_ortools
      else if length cities == 2 && leb far config.intercity_threshold
      then intercity_hybrid
      else if ltb 1 (countries_count cities) || ltb config.international_threshold far
      then multi_country_complex
      else intercity_hybrid

pub data Complexity : Type 0 where
  simple simple_intercity medium_intercity complex_intercity international_complex : Complexity

pub data Recommendation : Type 0 where
  single_city_optimization hybrid_with_ortools intercity_with_accommodation : Recommendation
  full_multi_city_architecture specialized_international_planning : Recommendation

-- The fields after `requires_intercity_optimization` are there for several cities only.
pub record Details : Type 0 where
  pub total_countries : ℕ
  pub max_intercity_distance : ℕ
  pub sum_distances : ℕ
  pub count_distances : ℕ
  pub requires_accommodation : Bool
  pub requires_international_planning : Bool
  pub estimated_trip_days : ℕ

pub record Analysis : Type 0 where
  pub complexity : Complexity
  pub total_cities : ℕ
  pub details : Option Details
  pub recommendation : Recommendation

abbrev pub estimate_trip_days : List City → ℕ → ℕ
estimate_trip_days cities far =
    if ltb 500000 far
    then length cities + 2
    else if ltb 200000 far
    then length cities + 1
    else length cities

abbrev pub recommend : Complexity → Recommendation
recommend simple = single_city_optimization
recommend simple_intercity = hybrid_with_ortools
recommend medium_intercity = intercity_with_accommodation
recommend complex_intercity = full_multi_city_architecture
recommend international_complex = specialized_international_planning

abbrev pub complexity_of : ℕ → ℕ → Complexity
complexity_of n far =
    if n == 2 && leb far 100000
    then simple_intercity
    else if leb n 3 && leb far 300000
    then medium_intercity
    else if leb n 5 && leb far 800000
    then complex_intercity
    else international_complex

-- The average distance is a sum and a count.
unfoldable pub analyze_multi_city_complexity : (ℤ × ℤ → ℤ × ℤ → ℕ) → List City → Analysis
analyze_multi_city_complexity geodesic cities =
    let far = max_distance geodesic cities in
    let kind = complexity_of (length cities) far in
    let details : Details = record {
      total_countries = countries_count cities;
      max_intercity_distance = far;
      sum_distances = sum (distances geodesic cities);
      count_distances = length (distances geodesic cities);
      requires_accommodation = ltb 300000 far;
      requires_international_planning = ltb 1 (countries_count cities);
      estimated_trip_days = estimate_trip_days cities far;
    } in
    if leb (length cities) 1
    then record {
      complexity = simple;
      total_cities = length cities;
      details = none;
      recommendation = single_city_optimization;
    }
    else record {
      complexity = kind;
      total_cities = length cities;
      details = some details;
      recommendation = recommend kind;
    }
