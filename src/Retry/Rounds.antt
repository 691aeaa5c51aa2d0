-- ===== src/Retry/Rounds.antt =====
-- One round of the retry loop of `routing_service_robust` (utils/hybrid_optimizer_v31.py).
use goveling_ml.Prelude.{ℕ, zero, suc, ◌+◌, ◌-◌, ◌≤◌, ◌<◌, ◌≡◌, ◌≢◌, refl, ◌∙◌, some, arith}
use goveling_ml.Prelude.Exceptions.{Exception, Result, ok, err, circuit_open, timeout_error}
use goveling_ml.Breaker.{State, Attempt, record_failure, record_success}
use goveling_ml.Retry.{World, retry, react, Reply, Response, protected_call, robust_from, accept}

-- The services answer with an exception of their own.
abbrev pub IsFailure : {A : Type 0} → Result A → Type 0
IsFailure (ok _) = ⊥
IsFailure (err e) = e ≢ circuit_open

abbrev pub IsAccepted : {R : Type 0} → Result (Response R) → R → Type 0
IsAccepted (ok response) r = accept response ≡ some r
IsAccepted (err _) r = ⊥

pub failure_cases :
    {A : Type 0} (r : Result A) → IsFailure r → (e : Exception) × (r ≡ err e) × (e ≢ circuit_open)
failure_cases (ok _) h = absurd h
failure_cases (err e) h = (e, refl, h)

pub failing_call :
    {A : Type 0} (t : Attempt A) (w : World) (e : Exception)
    → t.outcome ≡ err e
    → w.breaker.state ≡ State.closed
    → protected_call t w
      ≡ (err e, record { breaker = record_failure t.finished w.breaker; invoked = w.invoked + 1 })
unfolding protected_call record_failure
failing_call t w e h c = ground arith

pub succeeding_call :
    {A : Type 0} (t : Attempt A) (w : World) (a : A)
    → t.outcome ≡ ok a
    → w.breaker.state ≡ State.closed
    → protected_call t w
      ≡ (ok a, record { breaker = record_success w.breaker; invoked = w.invoked + 1 })
unfolding protected_call record_success
succeeding_call t w a h c = ground arith

pub cooling_call :
    {A : Type 0} (t : Attempt A) (w : World) (last : ℕ)
    → w.breaker.state ≡ State.opened
    → w.breaker.last_failure_time ≡ some last
    → t.started - last ≤ w.breaker.recovery_timeout
    → protected_call t w ≡ (err circuit_open, w)
unfolding protected_call
cooling_call t w last o l h = ground arith

module _ {R : Type 0} where
  pub react_failure :
      (max_retries attempt : ℕ) (e : Exception) (w : World) (next : Reply R × World)
      → e ≢ circuit_open
      → react max_retries attempt (err e) w next ≡ retry max_retries attempt w next
  react_failure m i circuit_open w next h = absurd (h refl)
  react_failure m i timeout_error w next h = refl
  react_failure m i _ w next h = refl

  -- The outcome of the loop, read off the round at hand.
  pub robust_from-suc :
      (left attempt max_retries : ℕ) (env : ℕ → Attempt (Response R)) (w w' : World)
      (r : Result (Response R))
      → protected_call (env attempt) w ≡ (r, w')
      → robust_from (suc left) attempt max_retries env w
        ≡ react max_retries attempt r w' (robust_from left (attempt + 1) max_retries env w')
  unfolding robust_from
  robust_from-suc left attempt m env w w' r e = rw e

module _ {R : Type 0} (env : ℕ → Attempt (Response R)) where
  abbrev pub after_failure : ℕ → World → World
  after_failure i w = record {
    breaker = record_failure (env i).finished w.breaker;
    invoked = w.invoked + 1;
  }

  pub last_or_next :
      (left attempt max_retries : ℕ) (w : World)
      → left + attempt ≡ max_retries
      → retry max_retries attempt w (robust_from left (attempt + 1) max_retries env w)
        ≡ robust_from left (attempt + 1) max_retries env w
  unfolding robust_from
  last_or_next zero i m w s = ground arith
  last_or_next (suc left) i m w s = let more : i < m = omega arith in ground arith

  -- A failing round goes on with the next one, also at the last attempt, where none is left.
  pub failing_round :
      (left attempt max_retries : ℕ) (w : World)
      → suc left + attempt ≡ max_retries + 1
      → w.breaker.state ≡ State.closed
      → IsFailure (env attempt).outcome
      → robust_from (suc left) attempt max_retries env w
        ≡ robust_from left (attempt + 1) max_retries env (after_failure attempt w)
  failing_round left i m w s c f =
      let (e, raised, ne) = failure_cases (env i).outcome f in
      robust_from-suc left i m env w (after_failure i w) (err e) (failing_call (env i) w e raised c)
      ∙ react_failure m i e (after_failure i w) _ ne
      ∙ last_or_next left i m (after_failure i w) (omega arith)
