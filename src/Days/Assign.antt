-- ===== src/Days/Assign.antt =====
-- `allocate_clusters_to_days` of utils/hybrid_optimizer_v31.py. `distance` is `haversine_km` in
-- metres and `same_place` the equality of two dictionaries. The labels of clusters are left out.
use goveling_ml.Prelude.{
  ℕ, suc, ◌+◌, ◌*◌, ◌%◌, Bool, ◌&&◌, not, Option, none, some, List, [], ◌∷◌, ◌++◌, map, max, ltb,
  leb, if◌then◌else◌, length, filter_by, sum, update_at, repeat,
}
use goveling_ml.Prelude.Exceptions.{Result, ok, err, zero_division, other_error, and_then}
use goveling_ml.Prelude.Sort.{sorted}
use goveling_ml.Schedule.Data.{Location, Place, HomeBase, Cluster}

abbrev pub Assignment : Type 0
Assignment = List (List Cluster)

-- The day with the fewest clusters, the first of several, with their number.
abbrev pub least : Assignment → Option (ℕ × ℕ)
least [] = none
least (d ∷ ds) = elim (least ds) [
  | none ↦ some (0, length d)
  | some (i, n) ↦ (if leb (length d) n then some (0, length d) else some (suc i, n))
]

abbrev pub add_to : ℕ → Cluster → Assignment → Assignment
add_to i c = update_at i (λ d. d ++ c ∷ [])

abbrev pub add_at : Option (ℕ × ℕ) → Cluster → Assignment → Result Assignment
add_at none c days = err other_error
add_at (some (i, n)) c days = ok (add_to i c days)

-- `min` of no days raises ValueError.
unfoldable pub add_to_least : Cluster → Assignment → Result Assignment
add_to_least c days = add_at (least days) c days

abbrev pub single : Option HomeBase → Place → Cluster
single home p = record {
  centroid = p.location;
  places = p ∷ [];
  home_base = home;
  home_base_source = "none";
}

abbrev pub singles : Cluster → List Place → List Cluster
singles c = map (single c.home_base)

abbrev pub with_index : ℕ → Result Assignment → Result (ℕ × Assignment)
with_index i (ok days) = ok (i, days)
with_index i (err e) = err e

unfoldable pub relaxed_step : ℕ → Cluster → Assignment → Result (ℕ × Assignment)
unfolding add_to_least
relaxed_step day_idx c days =
    if ltb day_idx (length days)
    then ok (day_idx + 1, add_to day_idx c days)
    else with_index day_idx (add_to_least c days)

unfoldable pub relaxed_places : ℕ → List Cluster → Assignment → Result (ℕ × Assignment)
unfolding relaxed_step
relaxed_places day_idx [] days = ok (day_idx, days)
relaxed_places day_idx (m ∷ ms) days =
    and_then (relaxed_step day_idx m days) (λ (i, days'). relaxed_places i ms days')

unfoldable pub relaxed_from : ℕ → List Cluster → Assignment → Result Assignment
unfolding relaxed_places
relaxed_from day_idx [] days = ok days
relaxed_from day_idx (c ∷ cs) days =
    and_then (relaxed_places day_idx (singles c c.places) days)
      (λ (i, days'). relaxed_from i cs days')

unfoldable pub distribute_relaxed_mode : List Cluster → Assignment → Result Assignment
unfolding relaxed_from
distribute_relaxed_mode clusters days = relaxed_from 0 clusters days

-- Each cluster goes to the day with the fewest.
unfoldable pub distribute_intensive_mode : List Cluster → Assignment → Result Assignment
unfolding add_to_least
distribute_intensive_mode [] days = ok days
distribute_intensive_mode (c ∷ cs) days =
    and_then (add_to_least c days) (λ days'. distribute_intensive_mode cs days')

-- `i % len(day_keys)` raises where there is no day.
unfoldable pub round_robin : ℕ → List Cluster → Assignment → Result Assignment
round_robin i [] days = ok days
round_robin i (c ∷ cs) [] = err zero_division
round_robin i (c ∷ cs) (d ∷ ds) = round_robin (i + 1) cs (add_to (i % length (d ∷ ds)) c (d ∷ ds))

pub data Suggestion : Type 0 where
  group_same_day group_pairs distribute distribute_far : Suggestion

abbrev pub pairs : List Place → List (List Place)
pairs [] = []
pairs (p ∷ []) = (p ∷ []) ∷ []
pairs (p ∷ q ∷ ps) = (p ∷ q ∷ []) ∷ pairs ps

abbrev pub with_places : Cluster → List Place → Cluster
with_places c ps = record {
  centroid = c.centroid;
  places = ps;
  home_base = c.home_base;
  home_base_source = "none";
}

abbrev pub pair_clusters : Cluster → List Cluster
pair_clusters c = map (with_places c) (pairs c.places)

abbrev pub maximum : List ℕ → ℕ
maximum [] = 0
maximum (x ∷ xs) = max x (maximum xs)

abbrev pub total_places : List Cluster → ℕ
total_places cs = sum (map (λ (c : Cluster). length c.places) cs)

module _ (distance : Location → Location → ℕ) (same_place : Place → Place → Bool) where
  abbrev pub place_to_place : List Place → List ℕ
  place_to_place [] = []
  place_to_place (p ∷ ps) = map (λ q. distance p.location q.location) ps ++ place_to_place ps

  -- The suggestion of `_evaluate_route_sequences` for places that are not empty.
  unfoldable pub evaluate_route_sequences : List Place → Suggestion
  evaluate_route_sequences places =
      let ds = place_to_place places in
      if leb (length places) 2
      then group_same_day
      else if leb (sum ds) (2000 * length ds)
      then group_same_day
      else if leb (sum ds) (5000 * length ds) && leb (maximum ds) 8000
      then group_pairs
      else if ltb 15000 (maximum ds)
      then distribute_far
      else distribute

  unfoldable pub remoteness : List Place → Place → ℕ
  remoteness places p =
      sum (map (λ q. distance p.location q.location) (filter_by (λ q. not (same_place q p)) places))

  unfoldable pub by_remoteness : List Place → List Place
  unfolding remoteness
  by_remoteness places = sorted (λ p q. leb (remoteness places p) (remoteness places q)) places

  abbrev pub follow : Suggestion → Cluster → Assignment → Result Assignment
  follow group_same_day c days = add_to_least c days
  follow group_pairs c days = distribute_intensive_mode (pair_clusters c) days
  follow distribute c days = round_robin 0 (singles c c.places) days
  follow distribute_far c days = round_robin 0 (singles c (by_remoteness c.places)) days

  -- The analysis of a cluster without places has no `place_to_place_avg`, a KeyError.
  abbrev pub balanced_by : List Place → Cluster → Assignment → Result Assignment
  balanced_by [] c days = err other_error
  balanced_by (p ∷ []) c days = add_to_least c days
  balanced_by (p ∷ q ∷ ps) c days = follow (evaluate_route_sequences (p ∷ q ∷ ps)) c days

  unfoldable pub balanced_step : Cluster → Assignment → Result Assignment
  unfolding add_to_least evaluate_route_sequences distribute_intensive_mode round_robin
      by_remoteness
  balanced_step c days = balanced_by c.places c days

  unfoldable pub distribute_balanced_mode : List Cluster → Assignment → Result Assignment
  unfolding balanced_step
  distribute_balanced_mode [] days = ok days
  distribute_balanced_mode (c ∷ cs) days =
      and_then (balanced_step c days) (λ days'. distribute_balanced_mode cs days')

  -- `num_days` is 0 where the end lies before the start. The ratio of days to places is compared
  -- with 1.5 and 0.8 without rounding.
  unfoldable pub allocate_clusters_to_days : List Cluster → ℕ → Result Assignment
  unfolding distribute_relaxed_mode distribute_balanced_mode distribute_intensive_mode
  allocate_clusters_to_days clusters num_days =
      let places = max (total_places clusters) 1 in
      let days = repeat num_days [] in
      if leb (3 * places) (2 * num_days)
      then distribute_relaxed_mode clusters days
      else if leb (4 * places) (5 * num_days)
      then distribute_balanced_mode clusters days
      else distribute_intensive_mode clusters days
