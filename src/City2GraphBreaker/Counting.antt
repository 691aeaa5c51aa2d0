-- ===== src/City2GraphBreaker/Counting.antt =====
-- What `City2GraphCircuitBreaker` counts (utils/hybrid_optimizer_v31.py).
use goveling_ml.Prelude.{
  ◌+◌, ◌≤◌, ◌<◌, ◌≡◌, refl, ◌≢◌, true, none, List, [], ◌∷◌, arith, if◌then◌else◌,
}
use goveling_ml.Breaker.{State, Attempt}
use goveling_ml.City2GraphBreaker.{City2GraphCircuitBreaker, call, calls, failures, is_err}

-- Closed below the threshold; otherwise at or above it, with the time of a failure.
abbrev pub Sound : State → City2GraphCircuitBreaker → Type 0
Sound State.closed b = b.failure_count < b.failure_threshold
Sound State.opened b = (b.failure_threshold ≤ b.failure_count) × (b.last_failure_time ≢ none)
Sound State.half_open b = ⊥

pub record IsValid (b : City2GraphCircuitBreaker) : Type 0 where
  pub positive : 0 < b.failure_threshold
  pub sound : Sound b.state b

module _ {A : Type 0} where
  -- A call leaves a valid breaker valid: never half open, but closed with fewer failures than its
  -- threshold, or open at or above the threshold with the time of a failure.
  pub call-IsValid :
      (t : Attempt A) (b : City2GraphCircuitBreaker) → IsValid b → IsValid (call t b).1
  unfolding call
  call-IsValid t b v = ground arith

  call_closed :
      (t : Attempt A) (b : City2GraphCircuitBreaker)
      → b.state ≡ State.closed
      → b.failure_count + (if is_err t.outcome then 1 else 0) < b.failure_threshold
      → ((call t b).1.state ≡ State.closed)
        × ((call t b).1.failure_count ≡ b.failure_count + (if is_err t.outcome then 1 else 0))
        × ((call t b).1.failure_threshold ≡ b.failure_threshold)
  unfolding call
  call_closed t b c h = ground arith

  -- While a closed breaker's failures stay below the threshold it stays closed and counts every
  -- failure, however many successes lie between: a success does not set the count back.
  pub calls_count :
      (ts : List (Attempt A)) (b : City2GraphCircuitBreaker)
      → b.state ≡ State.closed
      → b.failure_count + failures ts < b.failure_threshold
      → ((calls ts b).state ≡ State.closed)
        × ((calls ts b).failure_count ≡ b.failure_count + failures ts)
        × ((calls ts b).failure_threshold ≡ b.failure_threshold)
  unfolding calls
  calls_count [] b c h = (c, omega arith, refl)
  calls_count (t ∷ ts) b c h =
      let (c', n, k) = call_closed t b c (omega arith) in
      let (d, m, j) = calls_count ts (call t b).1 c' (omega arith) in (d, omega arith, omega arith)

  -- A failure opens a closed breaker as soon as the failures of its whole history since it last
  -- recovered reach the threshold, consecutive or not.
  pub calls_trip :
      (ts : List (Attempt A)) (t : Attempt A) (b : City2GraphCircuitBreaker)
      → b.state ≡ State.closed
      → is_err t.outcome ≡ true
      → b.failure_count + failures ts + 1 ≡ b.failure_threshold
      → (call t (calls ts b)).1.state ≡ State.opened
  unfolding call
  calls_trip ts t b c e h = ground (arith, calls_count ts b c (omega arith))
