-- ===== src/Dispatch/Cascade.antt =====
-- `optimize_itinerary_hybrid_v31` of utils/hybrid_optimizer_v31.py: OR-Tools, then City2Graph, then the
-- classic method. The decision engine is made anew for each request.
use Prim.Native.String.{String}
use goveling_ml.Prelude.{ℕ, ◌&&◌, Option, none, some, List, [], ◌∷◌, if◌then◌else◌}
use goveling_ml.Prelude.Exceptions.{Result, ok, err}
use goveling_ml.Schedule.Data.{Location}
use goveling_ml.City2GraphBreaker.{City2GraphCircuitBreaker}
use goveling_ml.Decision.{Place, Request, Settings, DecisionResult}
use goveling_ml.Decision.Engine.{Factors, Inputs, should_use_ortools}
use goveling_ml.Decision.Engine
use goveling_ml.Dispatch.Choice.{PlaceRequest, CitySettings, CityChoice, should_use_city2graph}
use goveling_ml.Dispatch.Ortools.{OrtoolsRun, optimize_with_ortools}
use goveling_ml.Dispatch.Semantic.{CityRun, PlanAnswer, legacy, optimize_with_city2graph}

-- What does not change from request to request.
pub record Deployment : Type 0 where
  pub lower : String → String
  pub distance : Location → Location → ℕ
  pub automatic_city : List Place → Option String
  pub user_hash : String → ℕ
  pub digest : Factors → ℕ
  pub settings : Settings
  pub city_settings : CitySettings

-- A request and what it meets: the inputs of both decisions (`city_request` is the ItineraryRequest
-- with the cities that are detected in it, which may raise), and the runs of the optimizers.
pub record Job (Plan : Type 0) : Type 0 where
  pub inputs : Inputs
  pub request : Request
  pub ortools : OrtoolsRun Plan
  pub city_request : Result (List PlaceRequest × List String)
  pub trip_days : ℕ
  pub city_run : CityRun Plan

module _ {Plan : Type 0} (w : Deployment) where
  unfoldable pub ortools_decision : Job Plan → DecisionResult
  ortools_decision j =
      (should_use_ortools w.lower w.automatic_city w.user_hash w.digest w.settings j.inputs
        j.request Engine.init).0

  abbrev pub plan_only : Result Plan → Result (PlanAnswer Plan)
  plan_only (ok plan) = ok (record { plan = plan; analysis = none })
  plan_only (err e) = err e

  -- None where the next optimizer is tried.
  abbrev pub if_planned : Result Plan → Option (PlanAnswer Plan)
  if_planned (ok plan) = some (record { plan = plan; analysis = none })
  if_planned (err e) = none

  unfoldable pub try_ortools : Job Plan → Option (PlanAnswer Plan)
  unfolding optimize_with_ortools ortools_decision
  try_ortools j =
      if (ortools_decision j).use_ortools && w.settings.enable_ortools
      then if_planned (optimize_with_ortools (ortools_decision j) j.ortools)
      else none

  abbrev pub scored : CityChoice → CityRun Plan → CityRun Plan
  scored c r = record r { complexity_score = c.complexity_score }

  abbrev pub or_legacy :
      Job Plan
      → Result (PlanAnswer Plan) × City2GraphCircuitBreaker
      → Result (PlanAnswer Plan) × City2GraphCircuitBreaker
  or_legacy j (ok a, b) = (ok a, b)
  or_legacy j (err e, b) = (plan_only (j.city_run.classic legacy), b)

  abbrev pub by_choice :
      Job Plan
      → CityChoice
      → City2GraphCircuitBreaker
      → Result (PlanAnswer Plan) × City2GraphCircuitBreaker
  by_choice j c b =
      if c.use_city2graph && w.city_settings.enable_city2graph
      then or_legacy j (optimize_with_city2graph (scored c j.city_run) b)
      else (plan_only (j.city_run.classic legacy), b)

  abbrev pub by_city_request :
      Job Plan
      → Result (List PlaceRequest × List String)
      → City2GraphCircuitBreaker
      → Result (PlanAnswer Plan) × City2GraphCircuitBreaker
  by_city_request j (err e) b = (plan_only (j.city_run.classic legacy), b)
  by_city_request j (ok (places, cities)) b =
      by_choice j
        (should_use_city2graph w.lower w.distance w.city_settings cities j.trip_days places) b

  unfoldable pub without_ortools :
      Job Plan → City2GraphCircuitBreaker → Result (PlanAnswer Plan) × City2GraphCircuitBreaker
  without_ortools j b = by_city_request j j.city_request b

  abbrev pub or_next :
      Job Plan
      → City2GraphCircuitBreaker
      → Option (PlanAnswer Plan)
      → Result (PlanAnswer Plan) × City2GraphCircuitBreaker
  or_next j b (some a) = (ok a, b)
  or_next j b none = without_ortools j b

  unfoldable pub optimize_itinerary_hybrid_v31 :
      Job Plan → City2GraphCircuitBreaker → Result (PlanAnswer Plan) × City2GraphCircuitBreaker
  unfolding without_ortools try_ortools
  optimize_itinerary_hybrid_v31 j b = or_next j b (try_ortools j)

  -- Requests one after the other, with the answers of all.
  unfoldable pub serve :
      List (Job Plan)
      → City2GraphCircuitBreaker
      → List (Result (PlanAnswer Plan)) × City2GraphCircuitBreaker
  unfolding optimize_itinerary_hybrid_v31
  serve [] b = ([], b)
  serve (j ∷ js) b =
      let (a, later) = optimize_itinerary_hybrid_v31 j b in
      let (as_, final) = serve js later in (a ∷ as_, final)
