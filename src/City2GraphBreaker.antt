-- ===== src/City2GraphBreaker.antt =====
-- `City2GraphCircuitBreaker` of utils/hybrid_optimizer_v31.py. Times are milliseconds since the
-- epoch; a `last_failure_time` of None or 0 is false in the test of `call`.
pub mod Counting
use goveling_ml.Prelude.{
  ℕ, zero, suc, ◌+◌, ◌-◌, ◌≤◌, ◌<◌, ◌≡◌, refl, ◌⊎◌, inl, inr, Bool, true, false, ◌&&◌, not, Option,
  none, some, List, [], ◌∷◌, ltb, leb, ◌==◌, arith, if◌then◌else◌, Bool-cases,
}
use goveling_ml.Prelude.Exceptions.{Exception, Result, ok, err, other_error, type_error}
use goveling_ml.Breaker.{State, Attempt}

pub record City2GraphCircuitBreaker : Type 0 where
  pub failure_count : ℕ
  pub failure_threshold : ℕ
  pub last_failure_time : Option ℕ
  pub state : State
  pub recovery_timeout : ℕ

unfoldable pub init : ℕ → ℕ → City2GraphCircuitBreaker
init failure_threshold recovery_timeout = record {
  failure_count = 0;
  failure_threshold = failure_threshold;
  last_failure_time = none;
  state = State.closed;
  recovery_timeout = recovery_timeout;
}

-- `self.last_failure_time and (time.time() - self.last_failure_time) > self.recovery_timeout`
abbrev pub recovered : ℕ → City2GraphCircuitBreaker → Option ℕ → Bool
recovered now b none = false
recovered now b (some last) = not (last == 0) && ltb b.recovery_timeout (now - last)

-- What is raised while the circuit is open: its message computes the time since the last failure,
-- which raises where there is none.
abbrev pub refusal : Option ℕ → Exception
refusal none = type_error
refusal (some last) = other_error

module _ {A : Type 0} where
  abbrev pub on_success : A → City2GraphCircuitBreaker → State → Result A × City2GraphCircuitBreaker
  on_success a b State.half_open = (ok a, record b { state = State.closed; failure_count = 0 })
  on_success a b State.closed = (ok a, b)
  on_success a b State.opened = (ok a, b)

  abbrev pub on_failure :
      ℕ → Exception → City2GraphCircuitBreaker → Result A × City2GraphCircuitBreaker
  on_failure now e b = (
    err e,
    record b {
      failure_count = b.failure_count + 1;
      last_failure_time = some now;
      state = if leb b.failure_threshold (b.failure_count + 1) then State.opened else b.state;
    },
  )

  abbrev pub execute :
      Attempt A → Result A → City2GraphCircuitBreaker → Result A × City2GraphCircuitBreaker
  execute t (ok a) b = on_success a b b.state
  execute t (err e) b = on_failure t.finished e b

  abbrev pub enter :
      Attempt A → City2GraphCircuitBreaker → State → Result A × City2GraphCircuitBreaker
  enter t b State.opened =
      if recovered t.started b b.last_failure_time
      then execute t t.outcome (record b { state = State.half_open })
      else (err (refusal b.last_failure_time), b)
  enter t b State.closed = execute t t.outcome b
  enter t b State.half_open = execute t t.outcome b

  unfoldable pub call : Attempt A → City2GraphCircuitBreaker → Result A × City2GraphCircuitBreaker
  call t b = enter t b b.state

  -- Calls one after the other, with the results dropped.
  unfoldable pub calls : List (Attempt A) → City2GraphCircuitBreaker → City2GraphCircuitBreaker
  calls [] b = b
  calls (t ∷ ts) b = calls ts (call t b).1

  abbrev pub is_err : Result A → Bool
  is_err (ok a) = false
  is_err (err e) = true

  -- How many of the calls fail.
  abbrev pub failures : List (Attempt A) → ℕ
  failures [] = 0
  failures (t ∷ ts) = (if is_err t.outcome then 1 else 0) + failures ts
