-- ===== src/MultiCity/Full.antt =====
-- `_optimize_intercity_hybrid` of services/multi_city_optimizer.py. `integrator` is what
-- `HybridArchitectureIntegrator.optimize_itinerary` answers: none without success. The class has no
-- such method, so that every call raises AttributeError.
use Prim.Native.String.{String}
use goveling_ml.Prelude.{ℕ, zero, suc, ◌==◌, Option, none, some, List, [], ◌∷◌, ◌++◌, map}
use goveling_ml.Prelude.Int.{ℤ, pos, negsuc, pos_part, ◌+ℤ◌}
use goveling_ml.Prelude.Exceptions.{Result, ok, err, zero_division, and_then}
use goveling_ml.Prelude.Table.{lookup, set}
use goveling_ml.Schedule.Windows.{or_default}
use goveling_ml.MultiCity.{Poi, City}
use goveling_ml.MultiCity.Sequence.{find_optimal_city_sequence}
use goveling_ml.MultiCity.Shares.{bonus_weight, distribute_days_among_cities}
use goveling_ml.MultiCity.Plan.{range, day_pois, per_day_of, place_days, city_days}

-- `len(pois) // days` raises for no days; fewer make an empty range.
unfoldable pub simple_distribution : List Poi → ℤ → Result (List (ℕ × List Poi))
simple_distribution ps (pos zero) = err zero_division
simple_distribution ps (pos (suc n)) =
    ok (map (λ day. (day, day_pois ps (suc n) (per_day_of ps (suc n)) day)) (range 1 (suc n)))
simple_distribution ps (negsuc n) = ok []

pub data Item : Type 0 where
  poi : Poi → Item
  day_end other : Item

abbrev pub convert_from : ℕ → List (ℕ × List Poi) → List Item → List (ℕ × List Poi)
convert_from current schedule [] = schedule
convert_from current schedule (poi p ∷ items) =
    let so_far = or_default (lookup (λ i j. i == j) current schedule) [] in
    convert_from current (set (λ i j. i == j) current (so_far ++ p ∷ []) schedule) items
convert_from current schedule (day_end ∷ items) = convert_from (suc current) schedule items
convert_from current schedule (other ∷ items) = convert_from current schedule items

unfoldable pub convert_ortools_to_daily_schedule : List Item → List (ℕ × List Poi)
convert_ortools_to_daily_schedule items = convert_from 1 [] items

-- The trip: the sequence of the cities and the schedules.
pub record Trip : Type 0 where
  pub cities : List City
  pub daily_schedules : List (ℤ × List Poi)

module _ (lower : String → String) (geodesic : ℤ × ℤ → ℤ × ℤ → ℕ)
    (integrator : List Poi → ℤ → Result (Option (List Item))) where
  abbrev pub if_successful :
      List Poi → ℤ → Result (Option (List Item)) → Result (List (ℕ × List Poi))
  if_successful ps days (ok (some items)) = ok (convert_ortools_to_daily_schedule items)
  if_successful ps days (ok none) = simple_distribution ps days
  if_successful ps days (err e) = simple_distribution ps days

  unfoldable pub optimize_city_pois_with_ortools : List Poi → ℤ → Result (List (ℕ × List Poi))
  unfolding convert_ortools_to_daily_schedule simple_distribution
  optimize_city_pois_with_ortools ps days = if_successful ps days (integrator ps days)

  -- A city without places only takes its days.
  abbrev pub add_city : List Poi → ℤ → ℤ → List (ℤ × List Poi) → Result (List (ℤ × List Poi))
  add_city [] days current schedules = ok schedules
  add_city (p ∷ ps) days current schedules =
      and_then (optimize_city_pois_with_ortools (p ∷ ps) days)
        (λ city_schedule. ok (place_days current (range 0 (pos_part days)) city_schedule schedules))

  abbrev pub add_cities :
      List (String × ℤ) → List City → ℤ → List (ℤ × List Poi) → Result (List (ℤ × List Poi))
  add_cities days_per_city [] current schedules = ok schedules
  add_cities days_per_city (c ∷ cs) current schedules =
      let days = city_days days_per_city c in
      and_then (add_city c.pois days current schedules)
        (λ s. add_cities days_per_city cs (current +ℤ days) s)

  -- The days are those of the cities in the order they came in.
  unfoldable pub optimize_intercity_hybrid : List City → ℕ → Option String → Result Trip
  unfolding find_optimal_city_sequence distribute_days_among_cities optimize_city_pois_with_ortools
  optimize_intercity_hybrid cities days start_city =
      let sequence = find_optimal_city_sequence geodesic cities start_city in
      let days_per_city = distribute_days_among_cities (bonus_weight lower) cities days in
      and_then (add_cities days_per_city sequence (pos 1) [])
        (λ schedules. ok (record { cities = sequence; daily_schedules = schedules }))
