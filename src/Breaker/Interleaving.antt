-- ===== src/Breaker/Interleaving.antt =====
-- Coroutines that share one `CircuitBreaker` (utils/hybrid_optimizer_v31.py). `call` suspends at
-- its await, so the checks and the records of several calls interleave: an arbitrary list of events.
use goveling_ml.Prelude.{ℕ, ◌≤◌, ◌<◌, ◌≢◌, none, List, [], ◌∷◌, arith}
use goveling_ml.Breaker.{CircuitBreaker, State, is_open, record_success, record_failure}

-- What one coroutine does to the shared breaker without a suspension.
pub data Event : Type 0 where
  enter : ℕ → Event
  succeed : Event
  fail : ℕ → Event

unfoldable pub step : Event → CircuitBreaker → CircuitBreaker
unfolding is_open record_success record_failure
step (enter now) b = (is_open now b).1
step succeed b = record_success b
step (fail now) b = record_failure now b

unfoldable pub run : List Event → CircuitBreaker → CircuitBreaker
run [] b = b
run (e ∷ es) b = run es (step e b)

-- Closed below the threshold; otherwise at or above it, with the time of a failure.
abbrev pub Sound : State → CircuitBreaker → Type 0
Sound State.closed b = b.failure_count < b.failure_threshold
Sound State.opened b = (b.failure_threshold ≤ b.failure_count) × (b.last_failure_time ≢ none)
Sound State.half_open b = (b.failure_threshold ≤ b.failure_count) × (b.last_failure_time ≢ none)

pub record IsValid (b : CircuitBreaker) : Type 0 where
  pub positive : 0 < b.failure_threshold
  pub sound : Sound b.state b

pub step-IsValid : (e : Event) (b : CircuitBreaker) → IsValid b → IsValid (step e b)
unfolding step
step-IsValid (enter now) b v = ground arith
step-IsValid succeed b v = ground arith
step-IsValid (fail now) b v = ground arith

-- However the calls of several coroutines interleave, a valid breaker stays valid: it is closed
-- with fewer failures than its threshold, or has reached the threshold and knows when it failed.
pub run-IsValid : (es : List Event) (b : CircuitBreaker) → IsValid b → IsValid (run es b)
unfolding run
run-IsValid [] b v = v
run-IsValid (e ∷ es) b v = run-IsValid es (step e b) (step-IsValid e b v)
