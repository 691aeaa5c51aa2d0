-- ===== src/Breaker/Calls.antt =====
-- What one call of `CircuitBreaker.call` does, and how many failures open the circuit
-- (utils/hybrid_optimizer_v31.py).
use goveling_ml.Prelude.{
  ℕ, ◌+◌, ◌-◌, ◌≤◌, ◌<◌, ◌≡◌, refl, inl, inr, some, List, [], ◌∷◌, ◌++◌, map, arith, ltb, leb,
  if◌then◌else◌, length, ◌∙◌, Bool-cases, Option-cases,
}
use goveling_ml.Prelude.Exceptions.{err, circuit_open}
use goveling_ml.Breaker.{CircuitBreaker, State, Attempt, record_success, record_failure, call}
use goveling_ml.Breaker.Interleaving.{Event, enter, succeed, fail, step, run, IsValid}

-- The circuit is open and its recovery time is not over.
abbrev pub IsCooling : ℕ → CircuitBreaker → Type 0
IsCooling now b =
    (b.state ≡ State.opened)
    × ((last : ℕ) × (b.last_failure_time ≡ some last) × (now - last ≤ b.recovery_timeout))

cooling_call :
    {A : Type 0} (t : Attempt A) (b : CircuitBreaker) (last : ℕ)
    → b.last_failure_time ≡ some last
    → b.state ≡ State.opened
    → t.started - last ≤ b.recovery_timeout
    → call t b ≡ (err circuit_open, b)
unfolding call
cooling_call t b last e s h = ground arith

other_call :
    {A : Type 0} (t : Attempt A) (b : CircuitBreaker)
    → IsValid b
    → ¬ (IsCooling t.started b)
    → (call t b).0 ≡ t.outcome
unfolding call
other_call t b v h = elim (Option-cases b.last_failure_time) [
  | inl missing ↦ ground arith
  | inr (last, e) ↦ elim (Bool-cases (ltb b.recovery_timeout (t.started - last))) [
    | inl over ↦ ground arith
    | inr cooling ↦ ground (arith, λ (s : b.state ≡ State.opened). h (s, (last, e, ground arith)))
  ]
]

-- On a valid breaker a call is refused exactly while the circuit is open and at most the recovery
-- time has passed since the last failure; a call that is not refused ends as the protected function
-- ends, so the TypeError of a missing failure time is never raised.
pub call_refused_iff :
    {A : Type 0} (t : Attempt A) (b : CircuitBreaker)
    → IsValid b
    → (IsCooling t.started b → call t b ≡ (err circuit_open, b))
      × (¬ (IsCooling t.started b) → (call t b).0 ≡ t.outcome)
call_refused_iff t b v = (λ (s, (last, e, h)). cooling_call t b last e s h, other_call t b v)

run-fails_opened :
    (ts : List ℕ) (b : CircuitBreaker)
    → b.state ≡ State.opened
    → (run (map fail ts) b).state ≡ State.opened
unfolding run step
run-fails_opened [] b o = o
run-fails_opened (t ∷ ts) b o = run-fails_opened ts (record_failure t b) (ground arith)

-- Failures with no success between them open a closed circuit when the count reaches the threshold.
pub run-fails :
    (ts : List ℕ) (b : CircuitBreaker)
    → b.state ≡ State.closed
    → b.failure_count < b.failure_threshold
    → (run (map fail ts) b).state ≡ (
        if leb b.failure_threshold (b.failure_count + length ts)
        then State.opened
        else State.closed)
unfolding run step
run-fails [] b c h = ground arith
run-fails (t ∷ ts) b c h = elim (Bool-cases (leb b.failure_threshold (b.failure_count + 1))) [
  | inl trip ↦ ground (arith, run-fails_opened ts (record_failure t b))
  | inr keep ↦ ground (arith, run-fails ts (record_failure t b))
]

run-append : (es fs : List Event) (b : CircuitBreaker) → run (es ++ fs) b ≡ run fs (run es b)
unfolding run
run-append [] fs b = refl
run-append (e ∷ es) fs b = run-append es fs (step e b)

threshold-step :
    (e : Event) (b : CircuitBreaker) → (step e b).failure_threshold ≡ b.failure_threshold
unfolding step
threshold-step (enter now) b = ground arith
threshold-step succeed b = refl
threshold-step (fail now) b = refl

threshold-run :
    (es : List Event) (b : CircuitBreaker) → (run es b).failure_threshold ≡ b.failure_threshold
unfolding run
threshold-run [] b = refl
threshold-run (e ∷ es) b = threshold-run es (step e b) ∙ threshold-step e b

-- With a threshold above 0 and whatever happened before, after a success and then only failures the
-- circuit is open exactly when these failures alone reach the threshold, and else closed.
pub trip_exact :
    (es : List Event) (ts : List ℕ) (b : CircuitBreaker)
    → 0 < b.failure_threshold
    → (run (es ++ succeed ∷ map fail ts) b).state
      ≡ (if leb b.failure_threshold (length ts) then State.opened else State.closed)
unfolding run step
trip_exact es ts b h =
    rw (run-append es (succeed ∷ map fail ts) b)
      (ground (arith, threshold-run es b, run-fails ts (record_success (run es b))))
