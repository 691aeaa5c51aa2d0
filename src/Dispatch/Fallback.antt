-- ===== src/Dispatch/Fallback.antt =====
-- Which optimizer answers in the end (utils/hybrid_optimizer_v31.py).
use goveling_ml.Prelude.{◌≡◌, refl, ap, ◌&&◌, Option, none, List, both}
use goveling_ml.Prelude.Exceptions.{Result, ok, err, ◌>>=◌, name_error}
use goveling_ml.City2GraphBreaker.{City2GraphCircuitBreaker}
use goveling_ml.Decision.{DecisionResult}
use Prim.Native.String.{String}
use goveling_ml.Dispatch.Choice.{PlaceRequest, CityChoice}
use goveling_ml.Dispatch.Ortools.{
  OrtoolsRun, content_of, performance_ratio, attempt, handle, optimize_with_ortools,
}
use goveling_ml.Dispatch.Semantic.{legacy, PlanAnswer}
use goveling_ml.Dispatch.Cascade.{
  Deployment, Job, ortools_decision, plan_only, if_planned, try_ortools, or_legacy, by_choice,
  by_city_request, without_ortools, or_next, optimize_itinerary_hybrid_v31,
}

abbrev IsErr : {A : Type 0} → Result A → Type 0
IsErr (ok a) = ⊥
IsErr (err e) = Unit

abbrev pub IsOk : {A : Type 0} → Result A → Type 0
IsOk (ok a) = Unit
IsOk (err e) = ⊥

>>=-IsErr :
    {A B : Type 0} (m : Result A) (f : A → Result B) → ((a : A) → IsErr (f a)) → IsErr (m >>= f)
>>=-IsErr (ok a) f h = h a
>>=-IsErr (err e) f h = tt

module _ {Plan : Type 0} where
  attempt-IsErr : (d : DecisionResult) (r : OrtoolsRun Plan) → IsErr (attempt d r)
  attempt-IsErr d r = >>=-IsErr r.initialized _ (λ _. >>=-IsErr r.request _ (λ c.
      >>=-IsErr (content_of c) _ (λ _. >>=-IsErr r.optimized _ (λ _.
        >>=-IsErr r.legacy _ (λ l.
          >>=-IsErr (content_of l) _ (λ plan. >>=-IsErr (performance_ratio d) _ (λ _. tt)))))))

  handle-IsErr : (m : Result Plan) → IsErr m → handle m ≡ err name_error
  handle-IsErr (ok plan) h = absurd h
  handle-IsErr (err e) h = refl

  -- Whatever OR-Tools answers, its optimization ends with a NameError.
  optimize_with_ortools-eq_err :
      (d : DecisionResult) (r : OrtoolsRun Plan) → optimize_with_ortools d r ≡ err name_error
  unfolding optimize_with_ortools
  optimize_with_ortools-eq_err d r = handle-IsErr (attempt d r) (attempt-IsErr d r)

  module _ (w : Deployment) where
    try_ortools-eq_none : (j : Job Plan) → try_ortools w j ≡ none
    unfolding try_ortools
    try_ortools-eq_none j =
        both (λ (o : Option (PlanAnswer Plan)). o ≡ none)
          ((ortools_decision w j).use_ortools && w.settings.enable_ortools)
          (ap (if_planned w) (optimize_with_ortools-eq_err (ortools_decision w j) j.ortools)) refl

    -- No request is ever answered by OR-Tools: whatever the decision engine decides and whatever the
    -- OR-Tools service computes, the answer and the circuit breaker are those of the cascade without
    -- OR-Tools.
    pub optimize_itinerary_hybrid_v31-eq-without_ortools :
        (j : Job Plan) (b : City2GraphCircuitBreaker)
        → optimize_itinerary_hybrid_v31 w j b ≡ without_ortools w j b
    unfolding optimize_itinerary_hybrid_v31
    optimize_itinerary_hybrid_v31-eq-without_ortools j b =
        ap (or_next w j b) (try_ortools-eq_none j)

    plan_only-IsOk : (r : Result Plan) → IsOk r → IsOk (plan_only w r)
    plan_only-IsOk (ok plan) h = tt
    plan_only-IsOk (err e) h = absurd h

    or_legacy-IsOk :
        (j : Job Plan) (r : Result (PlanAnswer Plan) × City2GraphCircuitBreaker)
        → IsOk (j.city_run.classic legacy)
        → IsOk (or_legacy w j r).0
    or_legacy-IsOk j (ok a, b) h = tt
    or_legacy-IsOk j (err e, b) h = plan_only-IsOk _ h

    by_choice-IsOk :
        (j : Job Plan) (c : CityChoice) (b : City2GraphCircuitBreaker)
        → IsOk (j.city_run.classic legacy)
        → IsOk (by_choice w j c b).0
    by_choice-IsOk j c b h =
        both (λ (r : Result (PlanAnswer Plan) × City2GraphCircuitBreaker). IsOk r.0)
          (c.use_city2graph && w.city_settings.enable_city2graph) (or_legacy-IsOk j _ h)
          (plan_only-IsOk (j.city_run.classic legacy) h)

    without_ortools-IsOk :
        (j : Job Plan) (b : City2GraphCircuitBreaker)
        → IsOk (j.city_run.classic legacy)
        → IsOk (without_ortools w j b).0
    unfolding without_ortools
    without_ortools-IsOk j b h = requested j.city_request
      where
        requested :
            (r : Result (List PlaceRequest × List String)) → IsOk (by_city_request w j r b).0
        requested (err e) = plan_only-IsOk (j.city_run.classic legacy) h
        requested (ok (places, cities)) = by_choice-IsOk j _ b h

    -- If the classic method has a plan as the last resort, every request is answered with a plan,
    -- whatever the other optimizers, the decisions and the circuit breaker do.
    pub optimize_itinerary_hybrid_v31-IsOk :
        (j : Job Plan) (b : City2GraphCircuitBreaker)
        → IsOk (j.city_run.classic legacy)
        → IsOk (optimize_itinerary_hybrid_v31 w j b).0
    optimize_itinerary_hybrid_v31-IsOk j b h =
        rw (optimize_itinerary_hybrid_v31-eq-without_ortools j b) (without_ortools-IsOk j b h)
