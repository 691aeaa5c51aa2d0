-- ===== src/Tests/Jobs.antt =====
-- Requests to `optimize_itinerary_hybrid_v31` of utils/hybrid_optimizer_v31.py. A plan is a number.
use goveling_ml.Prelude.{ℕ, ◌≡◌, refl, Option, none, some, true, false, List, [], ◌∷◌, All}
use goveling_ml.Prelude.Int.{negsuc}
use goveling_ml.Prelude.Exceptions.{Result, ok, err, connection_error}
use goveling_ml.Schedule.Data.{Location}
use goveling_ml.Breaker.{State}
use goveling_ml.City2GraphBreaker.{City2GraphCircuitBreaker, call}
use goveling_ml.Dispatch.Choice.{PlaceRequest, should_use_city2graph}
use goveling_ml.Dispatch.Ortools.{OrtoolsRun, optimize_with_ortools}
use goveling_ml.Dispatch.Semantic.{
  Stage, in_core, open_circuit, after_failure, legacy, PlanAnswer, execute_city2graph_core_logic,
  optimize_with_city2graph,
}
use goveling_ml.Dispatch.Cascade.{
  Deployment, Job, without_ortools, optimize_itinerary_hybrid_v31, serve,
}
use goveling_ml.Dispatch.Fallback.{
  IsOk, optimize_itinerary_hybrid_v31-IsOk, optimize_itinerary_hybrid_v31-eq-without_ortools,
}
use goveling_ml.Dispatch.Open.{IsClassic, serve-IsIdle}
use goveling_ml.Tests.Decisions.{keep, nowhere, user_7, count_places, request, settings, inputs}

program : Unit {0}
unfolding should_use_city2graph optimize_with_ortools execute_city2graph_core_logic
    optimize_with_city2graph call without_ortools optimize_itinerary_hybrid_v31 serve
program = tt

abbrev deployment : Deployment
deployment = record {
  lower = keep;
  distance = λ a b. 60000;
  automatic_city = nowhere;
  user_hash = user_7;
  digest = count_places;
  settings = settings;
  city_settings = record { enable_city2graph = true; enabled_cities = [] };
}

abbrev here : Location
here = record { lat = negsuc 33437000; lon = negsuc 70650000 }

abbrev place : PlaceRequest
place = record { kind = some "museum"; location = here }

abbrev four_places : List PlaceRequest
four_places = place ∷ place ∷ place ∷ place ∷ []

-- Four places for three days in two cities: 1.5 + 3 + 2 + 1/3 + 1.
choice_runs :
    should_use_city2graph keep deployment.distance deployment.city_settings
      ("a" ∷ "b" ∷ [])
      3
      four_places
    ≡ record { use_city2graph = true; complexity_score = 1175000 }
unfolding program
choice_runs = refl

-- The clusters have names of their own, so none is in a list of enabled cities.
restricted_choice_runs :
    (should_use_city2graph keep deployment.distance
      (record { enable_city2graph = true; enabled_cities = "santiago" ∷ [] })
      ("city_1_2_places" ∷ "city_2_2_places" ∷ [])
      3
      four_places).use_city2graph
    ≡ false
unfolding program
restricted_choice_runs = refl

-- OR-Tools has the plan 1, the classic method the plan 2 or more, by where it is called.
abbrev ortools_plan : OrtoolsRun ℕ
ortools_plan = record {
  initialized = ok tt;
  request = ok (record { success = true; content = tt });
  optimized = ok tt;
  legacy = ok (record { success = true; content = 1 });
  execution_time = 1800;
}

abbrev classic : Stage → Result ℕ
classic in_core = err connection_error
classic open_circuit = ok 2
classic after_failure = ok 3
classic legacy = ok 4

abbrev job : Job ℕ
job = record {
  inputs = inputs;
  request = request;
  ortools = ortools_plan;
  city_request = ok (four_places, "a" ∷ "b" ∷ []);
  trip_days = 3;
  city_run = record {
    classic = classic;
    places = record { lat_lon = some here; coordinates = none } ∷ [];
    semantic_result = true;
    complexity_score = 0;
    started = 1000;
    finished = 2000;
  };
}

abbrev plan_of : Result (PlanAnswer ℕ) → Option ℕ
plan_of (ok a) = some a.plan
plan_of (err e) = none

abbrev fresh : City2GraphCircuitBreaker
fresh = record {
  failure_count = 0;
  failure_threshold = 1;
  last_failure_time = none;
  state = State.closed;
  recovery_timeout = 300000;
}

-- One failure of the core opens this circuit; the same request a day later is still refused.
job_runs :
    let first = without_ortools deployment job fresh in
    let again = without_ortools deployment job first.1 in
    (plan_of first.0 ≡ some 3) × (first.1.state ≡ State.opened) × (plan_of again.0 ≡ some 2)
unfolding program
job_runs = (refl, refl, refl)

abbrev opened : City2GraphCircuitBreaker
opened = record fresh { failure_count = 1; last_failure_time = some 2000; state = State.opened }

optimize_itinerary_hybrid_v31-eq-without_ortools_example :
    optimize_itinerary_hybrid_v31 deployment job fresh ≡ without_ortools deployment job fresh
optimize_itinerary_hybrid_v31-eq-without_ortools_example =
    optimize_itinerary_hybrid_v31-eq-without_ortools deployment job fresh

optimize_itinerary_hybrid_v31-IsOk_example :
    IsOk (optimize_itinerary_hybrid_v31 deployment job fresh).0
optimize_itinerary_hybrid_v31-IsOk_example =
    optimize_itinerary_hybrid_v31-IsOk deployment job fresh tt

serve-IsIdle_example :
    All IsClassic (serve deployment (job ∷ job ∷ []) opened).0
    × ((serve deployment (job ∷ job ∷ []) opened).1 ≡ opened)
serve-IsIdle_example = serve-IsIdle opened deployment (job ∷ job ∷ []) refl
