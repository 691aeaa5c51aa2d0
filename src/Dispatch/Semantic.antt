-- ===== src/Dispatch/Semantic.antt =====
-- `_optimize_with_city2graph` and `_execute_city2graph_core_logic` of utils/hybrid_optimizer_v31.py
-- with the circuit breaker that all requests share. The classic method is what it answers at each
-- place where it is called; the semantic clustering, whose failures are dropped, is whether it had a
-- result.
use goveling_ml.Prelude.{ℕ, Bool, true, false, Option, none, some, List, [], ◌∷◌, if◌then◌else◌}
use goveling_ml.Prelude.Exceptions.{Result, ok, err, other_error, type_error}
use goveling_ml.Schedule.Data.{Location}
use goveling_ml.Breaker.{State, Attempt}
use goveling_ml.City2GraphBreaker.{City2GraphCircuitBreaker, call}

-- Where the classic method is called.
pub data Stage : Type 0 where
  in_core open_circuit after_failure legacy : Stage

pub data Method : Type 0 where
  city2graph_enhanced classic_fallback_circuit_breaker classic_fallback : Method

-- What is added to the metrics of a plan.
pub record PlanAnalysis : Type 0 where
  pub method_used : Method
  pub complexity_score : ℕ
  pub enhancement_applied : Bool
  pub semantic_available : Bool
  pub circuit_breaker_status : City2GraphCircuitBreaker

pub record PlanAnswer (Plan : Type 0) : Type 0 where
  pub plan : Plan
  pub analysis : Option PlanAnalysis

-- A place as a dictionary: `lat` and `lon`, else `coordinates`.
pub record Spot : Type 0 where
  pub lat_lon : Option Location
  pub coordinates : Option Location

abbrev pub add_coordinates : Option Location → List Location → List Location
add_coordinates none rest = rest
add_coordinates (some here) rest = here ∷ rest

abbrev pub either_location : Option Location → Option Location → Option Location
either_location (some here) other = some here
either_location none other = other

abbrev pub coords : List Spot → List Location
coords [] = []
coords (s ∷ ss) = add_coordinates (either_location s.lat_lon s.coordinates) (coords ss)

-- What one request meets: the classic method, the places, whether the clustering had a result, the
-- score of the decision, and when the call of the breaker starts and ends.
pub record CityRun (Plan : Type 0) : Type 0 where
  pub classic : Stage → Result Plan
  pub places : List Spot
  pub semantic_result : Bool
  pub complexity_score : ℕ
  pub started : ℕ
  pub finished : ℕ

module _ {Plan : Type 0} where
  -- Without coordinates the core raises before it plans.
  abbrev pub with_coords : CityRun Plan → List Location → Result Plan
  with_coords r [] = err other_error
  with_coords r (c ∷ cs) = r.classic in_core

  unfoldable pub execute_city2graph_core_logic : CityRun Plan → Result Plan
  execute_city2graph_core_logic r = with_coords r (coords r.places)

  abbrev pub analysis : Method → Bool → CityRun Plan → City2GraphCircuitBreaker → PlanAnalysis
  analysis m enhanced r b = record {
    method_used = m;
    complexity_score = r.complexity_score;
    enhancement_applied = enhanced;
    semantic_available = if enhanced then r.semantic_result else false;
    circuit_breaker_status = b;
  }

  abbrev pub marked : PlanAnalysis → Result Plan → Result (PlanAnswer Plan)
  marked a (ok plan) = ok (record { plan = plan; analysis = some a })
  marked a (err e) = err e

  abbrev pub protected : CityRun Plan → Attempt Plan
  unfolding execute_city2graph_core_logic
  protected r = record {
    started = r.started;
    finished = r.finished;
    outcome = execute_city2graph_core_logic r;
  }

  abbrev pub after_call :
      CityRun Plan
      → Result Plan × City2GraphCircuitBreaker
      → Result (PlanAnswer Plan) × City2GraphCircuitBreaker
  after_call r (ok plan, b) =
      (ok (record { plan = plan; analysis = some (analysis city2graph_enhanced true r b) }), b)
  after_call r (err e, b) =
      (marked (analysis classic_fallback false r b) (r.classic after_failure), b)

  -- The log line of an open circuit subtracts the time of the last failure, which must be there.
  abbrev pub refused_plan : CityRun Plan → City2GraphCircuitBreaker → Option ℕ → Result Plan
  refused_plan r b none = err type_error
  refused_plan r b (some last) = r.classic open_circuit

  abbrev pub after_refusal :
      CityRun Plan
      → City2GraphCircuitBreaker
      → Result Plan
      → Result (PlanAnswer Plan) × City2GraphCircuitBreaker
  after_refusal r b (ok plan) = (
    ok (record {
      plan = plan;
      analysis = some (analysis classic_fallback_circuit_breaker false r b);
    }),
    b,
  )
  after_refusal r b (err e) =
      (marked (analysis classic_fallback false r b) (r.classic after_failure), b)

  -- With the circuit open the classic method is called at once; its exception leads to the handler.
  abbrev pub by_state :
      CityRun Plan
      → City2GraphCircuitBreaker
      → State
      → Result (PlanAnswer Plan) × City2GraphCircuitBreaker
  by_state r b State.opened = after_refusal r b (refused_plan r b b.last_failure_time)
  by_state r b State.closed = after_call r (call (protected r) b)
  by_state r b State.half_open = after_call r (call (protected r) b)

  unfoldable pub optimize_with_city2graph :
      CityRun Plan → City2GraphCircuitBreaker → Result (PlanAnswer Plan) × City2GraphCircuitBreaker
  optimize_with_city2graph r b = by_state r b b.state
