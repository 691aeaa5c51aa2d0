-- ===== src/Tests/Distances.antt =====
-- The distance cache of services/ortools_distance_cache.py on concrete requests.
use goveling_ml.Prelude.{
  ℕ, zero, suc, ◌+◌, ◌-◌, ◌/◌, ◌≡◌, refl, some, List, [], ◌∷◌, true, length, arith,
}
use goveling_ml.Prelude.Int.{negsuc}
use goveling_ml.Prelude.Exceptions.{ok, err, other_error}
use goveling_ml.Prelude.Sort.{sorted}
use goveling_ml.DistanceCache.Matrix.{
  Place, Env, Preference, Source, Matrix, calculate_osrm_sequential, calculate_osrm_parallel,
  calculate_distance_matrix,
}
use goveling_ml.DistanceCache.Store.{
  DistanceCache, Clock, hit, computed, init, get_distance_matrix, invalidate_cache,
}
use goveling_ml.DistanceCache.Bounds.{IsValid, get_distance_matrix-IsValid}
use goveling_ml.DistanceCache.Freshness.{get_distance_matrix-again}
use goveling_ml.DistanceCache.Order.{get_distance_matrix-exchanged}
use goveling_ml.DistanceCache.Shape.{IsDone, calculate_distance_matrix-IsDone}
use goveling_ml.DistanceCache.Symmetry.{IsMetric, calculate_osrm_parallel-IsMetric}

abbrev plaza : Place
plaza = record {
  location = record { lat = negsuc 33437000; lon = negsuc 70650000 };
  name = "Plaza";
}

abbrev museum : Place
museum = record {
  location = record { lat = negsuc 33435000; lon = negsuc 70644000 };
  name = "Museo";
}

-- OSRM fails for the pair (0, 1) only.
abbrev services : Env
services = record {
  geodesic = λ p q. ok 700;
  osrm = λ i j. elim i [ zero ↦ err other_error | suc k ↦ ok (some 900) ];
  has_osrm = true;
  enable_parallel = true;
}

-- The number of places stands for the hash.
abbrev digest : List Place → ℕ
digest ps = length ps

abbrev clock : ℕ → Clock
clock now = record { found = now; aged = now; cleanup = λ k. now; saved = now; elapsed = 3 }

abbrev empty_cache : DistanceCache
empty_cache = record {
  cache = [];
  max_cache_size = 1000;
  cache_ttl = 3600;
  hits = 0;
  misses = 0;
  cache_size = 0;
  average_time = (0, 1);
  total_matrices_cached = 0;
}

empty_init : init 3600 ≡ empty_cache
unfolding init
empty_init = refl

abbrev trip : List Place
trip = plaza ∷ museum ∷ []

abbrev distances : Matrix
distances = (0 ∷ 700 ∷ []) ∷ (900 ∷ 0 ∷ []) ∷ []

sequential : calculate_osrm_sequential services trip ≡ ok distances
unfolding calculate_osrm_sequential
sequential = refl

-- The parallel computation asks for each pair in one direction only.
parallel : calculate_osrm_parallel services trip ≡ (0 ∷ 700 ∷ []) ∷ (700 ∷ 0 ∷ []) ∷ []
unfolding calculate_osrm_parallel
parallel = refl

first_request :
    (get_distance_matrix digest services (clock 5000) trip Preference.osrm empty_cache).0
    ≡ ok (computed distances Source.osrm 2)
unfolding get_distance_matrix calculate_distance_matrix
first_request = refl

-- The entry is gone, but the statistics still count it.
invalidated :
    (invalidate_cache
      (some 2)
      (get_distance_matrix digest services
        (clock 5000)
        trip
        Preference.osrm
        empty_cache).1).cache_size
    ≡ 1
unfolding get_distance_matrix calculate_distance_matrix invalidate_cache sorted
invalidated = refl

empty_cache-IsValid : IsValid empty_cache
empty_cache-IsValid = record {
  positive = omega arith;
  unique = tt;
  bounded = omega arith;
  counted = refl;
}

get_distance_matrix-IsValid_example :
    IsValid (get_distance_matrix digest services (clock 5000) trip Preference.auto empty_cache).1
get_distance_matrix-IsValid_example =
    get_distance_matrix-IsValid digest services (clock 5000) trip Preference.auto empty_cache
      empty_cache-IsValid

get_distance_matrix-again_example :
    let first = get_distance_matrix digest services (clock 5000) trip Preference.osrm empty_cache in
    get_distance_matrix digest services (clock 9000) trip Preference.auto first.1 ≡ (
      ok (hit distances Source.osrm ((9000 - 5000) / 1000)),
      record (first.1) { hits = first.1.hits + 1 },
    )
get_distance_matrix-again_example =
    get_distance_matrix-again digest services services (clock 5000) (clock 9000) trip trip
      Preference.osrm Preference.auto empty_cache distances Source.osrm 2 first_request refl
      (omega arith)

get_distance_matrix-exchanged_example :
    let first = get_distance_matrix digest services (clock 5000) trip Preference.osrm empty_cache in
    (get_distance_matrix digest services
      (clock 9000)
      (museum ∷ plaza ∷ [])
      Preference.osrm
      first.1).0
    ≡ ok (hit distances Source.osrm ((9000 - 5000) / 1000))
get_distance_matrix-exchanged_example =
    get_distance_matrix-exchanged digest services services (clock 5000) (clock 9000) plaza museum []
      Preference.osrm Preference.osrm empty_cache distances Source.osrm 2 refl first_request
      (omega arith)

calculate_distance_matrix-IsDone_example :
    IsDone 2 (λ x. x.0) (calculate_distance_matrix services trip Preference.osrm)
calculate_distance_matrix-IsDone_example =
    calculate_distance_matrix-IsDone services (λ p q. (700, refl)) trip Preference.osrm

calculate_osrm_parallel-IsMetric_example :
    IsMetric (calculate_osrm_parallel services (plaza ∷ museum ∷ plaza ∷ []))
calculate_osrm_parallel-IsMetric_example =
    calculate_osrm_parallel-IsMetric services (plaza ∷ museum ∷ plaza ∷ [])
