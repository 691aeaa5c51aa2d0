-- ===== src/Breaker.antt =====
-- `CircuitBreaker` of utils/hybrid_optimizer_v31.py. Times are milliseconds. The clock of a step is
-- an argument; a call of the protected function is the outcome of its `asyncio.wait_for`.
pub mod Interleaving
pub mod Calls
use goveling_ml.Prelude.{
  ℕ, zero, suc, ◌+◌, ◌-◌, ◌≡◌, Bool, true, false, Option, none, some, List, [], ◌∷◌, ltb, leb,
  arith, refl, if◌then◌else◌,
}
use goveling_ml.Prelude.Exceptions.{Exception, Result, ok, err, circuit_open, type_error}

pub data State : Type 0 where
  closed opened half_open : State

pub record CircuitBreaker : Type 0 where
  pub failure_threshold : ℕ
  pub timeout : ℕ
  pub recovery_timeout : ℕ
  pub failure_count : ℕ
  pub last_failure_time : Option ℕ
  pub state : State

unfoldable pub init : ℕ → ℕ → ℕ → CircuitBreaker
init failure_threshold timeout recovery_timeout = record {
  failure_threshold = failure_threshold;
  timeout = timeout;
  recovery_timeout = recovery_timeout;
  failure_count = 0;
  last_failure_time = none;
  state = State.closed;
}

-- The arithmetic on a `last_failure_time` of None raises.
abbrev pub recover : ℕ → CircuitBreaker → Option ℕ → Result Bool × CircuitBreaker
recover now b none = (err type_error, b)
recover now b (some last) =
    if ltb b.recovery_timeout (now - last)
    then (ok false, record b { state = State.half_open })
    else (ok true, b)

abbrev pub is_open_in : ℕ → CircuitBreaker → State → Result Bool × CircuitBreaker
is_open_in now b State.opened = recover now b b.last_failure_time
is_open_in now b State.closed = (ok false, b)
is_open_in now b State.half_open = (ok false, b)

unfoldable pub is_open : ℕ → CircuitBreaker → Result Bool × CircuitBreaker
is_open now b = is_open_in now b b.state

unfoldable pub record_success : CircuitBreaker → CircuitBreaker
record_success b = record b { failure_count = 0; state = State.closed }

unfoldable pub record_failure : ℕ → CircuitBreaker → CircuitBreaker
record_failure now b = record b {
  failure_count = b.failure_count + 1;
  last_failure_time = some now;
  state = if leb b.failure_threshold (b.failure_count + 1) then State.opened else b.state;
}

unfoldable pub is_closed : CircuitBreaker → Bool
is_closed b = elim b.state [ State.closed ↦ true | _ ↦ false ]

-- A call of the protected function: the clock when it starts and ends, and how it ends.
pub record Attempt (A : Type 0) : Type 0 where
  pub started : ℕ
  pub finished : ℕ
  pub outcome : Result A

module _ {A : Type 0} where
  abbrev pub settle : ℕ → Result A → CircuitBreaker → Result A × CircuitBreaker
  settle finished (ok a) b = (ok a, record_success b)
  settle finished (err e) b = (err e, record_failure finished b)

  abbrev pub admit : Attempt A → Result Bool × CircuitBreaker → Result A × CircuitBreaker
  admit t (err e, b) = (err e, b)
  admit t (ok true, b) = (err circuit_open, b)
  admit t (ok false, b) = settle t.finished t.outcome b

  unfoldable pub call : Attempt A → CircuitBreaker → Result A × CircuitBreaker
  unfolding is_open record_success record_failure
  call t b = admit t (is_open t.started b)
