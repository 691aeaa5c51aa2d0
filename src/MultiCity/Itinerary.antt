-- ===== src/MultiCity/Itinerary.antt =====
-- `optimize_multi_city_itinerary` of services/multi_city_optimizer_simple.py. `cluster` stands for
-- `CityClusteringService.cluster_pois_advanced` with the conversion of its clusters to cities.
use Prim.Native.String.{String}
use goveling_ml.Prelude.{ℕ, Option, List, [], ◌∷◌}
use goveling_ml.Prelude.Int.{ℤ, pos}
use goveling_ml.Prelude.Exceptions.{Result, ok, err, zero_division}
use goveling_ml.MultiCity.{Poi, City}
use goveling_ml.MultiCity.Plan.{
  simple_daily_distribution, MultiCityItinerary, optimize_intercity_hybrid_simple,
}
use goveling_ml.MultiCity.Strategy.{
  OptimizationStrategy, single_city_ortools, intercity_hybrid, multi_country_complex,
  custom_eurotrip, OptimizationConfig, determine_strategy_simple,
}

-- Of a single city only the days are kept, not its name and its centre.
pub data Outcome : Type 0 where
  one_city : List (ℕ × List Poi) → Outcome
  several : MultiCityItinerary → Outcome

-- The centre is an average, which raises for no places.
unfoldable pub optimize_single_city_simple : List Poi → ℕ → Result Outcome
unfolding simple_daily_distribution
optimize_single_city_simple [] days = err zero_division
optimize_single_city_simple (p ∷ ps) days =
    ok (one_city (simple_daily_distribution (p ∷ ps) (pos days)))

module _ (geodesic : ℤ × ℤ → ℤ × ℤ → ℕ) (cluster : List Poi → List City) where
  abbrev pub by_strategy : OptimizationStrategy → List Poi → ℕ → Option String → Result Outcome
  by_strategy single_city_ortools pois days start = optimize_single_city_simple pois days
  by_strategy intercity_hybrid pois days start =
      ok (several (optimize_intercity_hybrid_simple geodesic (cluster pois) days start))
  by_strategy multi_country_complex pois days start =
      ok (several (optimize_intercity_hybrid_simple geodesic (cluster pois) days start))
  by_strategy custom_eurotrip pois days start =
      ok (several (optimize_intercity_hybrid_simple geodesic (cluster pois) days start))

  unfoldable pub optimize_multi_city_itinerary :
      OptimizationConfig → List Poi → ℕ → Option String → Result Outcome
  unfolding determine_strategy_simple optimize_single_city_simple optimize_intercity_hybrid_simple
  optimize_multi_city_itinerary config pois days start =
      by_strategy (determine_strategy_simple geodesic config (cluster pois)) pois days start
