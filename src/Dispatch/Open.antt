-- ===== src/Dispatch/Open.antt =====
-- What happens once the circuit of City2Graph is open (utils/hybrid_optimizer_v31.py,
-- `_optimize_with_city2graph`).
use Prim.Native.String.{String}
use mathlib.Core.Path.{subst}
use goveling_ml.Prelude.{
  ◌≡◌, refl, sym, Bool, false, ◌&&◌, Option, none, some, List, [], ◌∷◌, both, All,
}
use goveling_ml.Prelude.Exceptions.{Result, ok, err}
use goveling_ml.Breaker.{State}
use goveling_ml.City2GraphBreaker.{City2GraphCircuitBreaker}
use goveling_ml.Dispatch.Choice.{PlaceRequest, CityChoice}
use goveling_ml.Dispatch.Semantic.{
  legacy, Method, PlanAnalysis, PlanAnswer, CityRun, marked, analysis, refused_plan, after_refusal,
  by_state, classic_fallback, optimize_with_city2graph,
}
use goveling_ml.Dispatch.Cascade.{
  Deployment, Job, plan_only, scored, or_legacy, by_choice, by_city_request, without_ortools, serve,
}
use goveling_ml.Dispatch.Fallback.{optimize_itinerary_hybrid_v31-eq-without_ortools}

abbrev is_enhanced : Option PlanAnalysis → Bool
is_enhanced none = false
is_enhanced (some a) = a.enhancement_applied

-- An answer that City2Graph has not made.
abbrev pub IsClassic : {Plan : Type 0} → Result (PlanAnswer Plan) → Type 0
IsClassic (ok a) = is_enhanced a.analysis ≡ false
IsClassic (err e) = Unit

module _ {Plan : Type 0} (b : City2GraphCircuitBreaker) where
  -- An answer without City2Graph that leaves the breaker as it is.
  abbrev IsIdle : Result (PlanAnswer Plan) × City2GraphCircuitBreaker → Type 0
  IsIdle r = IsClassic r.0 × (r.1 ≡ b)

  marked-IsClassic :
      (r : CityRun Plan) (m : Method) (p : Result Plan)
      → IsClassic (marked (analysis m false r b) p)
  marked-IsClassic r m (ok plan) = refl
  marked-IsClassic r m (err e) = tt

  after_refusal-IsIdle : (r : CityRun Plan) (p : Result Plan) → IsIdle (after_refusal r b p)
  after_refusal-IsIdle r (ok plan) = (refl, refl)
  after_refusal-IsIdle r (err e) = (marked-IsClassic r classic_fallback _, refl)

  city2graph-IsIdle :
      (r : CityRun Plan) → b.state ≡ State.opened → IsIdle (optimize_with_city2graph r b)
  unfolding optimize_with_city2graph
  city2graph-IsIdle r h =
      subst (λ s. IsIdle (by_state r b s)) (sym h)
        (after_refusal-IsIdle r (refused_plan r b b.last_failure_time))

  module _ (w : Deployment) where
    plan_only-IsClassic : (p : Result Plan) → IsClassic (plan_only w p)
    plan_only-IsClassic (ok plan) = refl
    plan_only-IsClassic (err e) = tt

    or_legacy-IsIdle :
        (j : Job Plan) (r : Result (PlanAnswer Plan) × City2GraphCircuitBreaker)
        → IsIdle r
        → IsIdle (or_legacy w j r)
    or_legacy-IsIdle j (ok a, c) h = h
    or_legacy-IsIdle j (err e, c) h = (plan_only-IsClassic _, h.1)

    classic-IsIdle : (p : Result Plan) → IsIdle (plan_only w p, b)
    classic-IsIdle p = (plan_only-IsClassic p, refl)

    by_choice-IsIdle :
        (j : Job Plan) (c : CityChoice) → b.state ≡ State.opened → IsIdle (by_choice w j c b)
    by_choice-IsIdle j c h =
        both IsIdle (c.use_city2graph && w.city_settings.enable_city2graph)
          (or_legacy-IsIdle j _ (city2graph-IsIdle (scored w c j.city_run) h))
          (classic-IsIdle (j.city_run.classic legacy))

    without_ortools-IsIdle :
        (j : Job Plan) → b.state ≡ State.opened → IsIdle (without_ortools w j b)
    unfolding without_ortools
    without_ortools-IsIdle j h = requested j.city_request
      where
        requested :
            (r : Result (List PlaceRequest × List String)) → IsIdle (by_city_request w j r b)
        requested (err e) = classic-IsIdle (j.city_run.classic legacy)
        requested (ok (places, cities)) = by_choice-IsIdle j _ h

    -- Once the circuit is open it never closes again: through any further requests, at whatever
    -- times, the circuit breaker stays exactly as it is, and no request is answered by City2Graph.
    pub serve-IsIdle :
        (js : List (Job Plan))
        → b.state ≡ State.opened
        → All IsClassic (serve w js b).0 × ((serve w js b).1 ≡ b)
    unfolding serve
    serve-IsIdle [] h = (tt, refl)
    serve-IsIdle (j ∷ js) h =
        let idle = without_ortools-IsIdle j h in
        let rest = serve-IsIdle js h in
        rw (optimize_itinerary_hybrid_v31-eq-without_ortools w j b, idle.1)
          ((idle.0, rest.0), rest.1)
