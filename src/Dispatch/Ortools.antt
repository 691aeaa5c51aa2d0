-- ===== src/Dispatch/Ortools.antt =====
-- `_optimize_with_ortools` of utils/hybrid_optimizer_v31.py. The service and the format converter are
-- what they answer to this request; recording the execution is left out, since it is not reached.
use goveling_ml.Prelude.{ℕ, Bool, ◌==◌, if◌then◌else◌}
use goveling_ml.Prelude.Exceptions.{Result, ok, err, ◌>>=◌, name_error, other_error, zero_division}
use goveling_ml.Decision.{DecisionResult}

pub record Conversion (A : Type 0) : Type 0 where
  pub success : Bool
  pub content : A

pub record OrtoolsRun (Plan : Type 0) : Type 0 where
  pub initialized : Result (Unit {0})
  pub request : Result (Conversion (Unit {0}))
  pub optimized : Result (Unit {0})
  pub legacy : Result (Conversion Plan)
  pub execution_time : ℕ

abbrev pub content_of : {A : Type 0} → Conversion A → Result A
content_of c = if c.success then ok c.content else err other_error

-- The number of days is computed from `start_date` and `end_date`, which are no names of this
-- function.
abbrev pub days_count : Result ℕ
days_count = err name_error

-- `execution_time / ortools_decision.estimated_execution_time_ms`
abbrev pub performance_ratio : DecisionResult → Result (Unit {0})
performance_ratio d = if d.estimated_execution_time_ms == 0 then err zero_division else ok tt

module _ {Plan : Type 0} where
  abbrev pub attempt : DecisionResult → OrtoolsRun Plan → Result Plan
  attempt d r = do
    _ ← r.initialized
    conversion ← r.request
    _ ← content_of conversion
    _ ← r.optimized
    legacy_conversion ← r.legacy
    plan ← content_of legacy_conversion
    _ ← performance_ratio d
    _ ← days_count
    ok plan

  -- The handler counts the days, too, before it raises an exception of its own.
  abbrev pub handle : Result Plan → Result Plan
  handle (ok plan) = ok plan
  handle (err e) = days_count >>= λ days. err other_error

  unfoldable pub optimize_with_ortools : DecisionResult → OrtoolsRun Plan → Result Plan
  optimize_with_ortools d r = handle (attempt d r)
