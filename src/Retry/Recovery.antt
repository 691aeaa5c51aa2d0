-- ===== src/Retry/Recovery.antt =====
-- The retry loop of `routing_service_robust` when the service answers after some failures
-- (utils/hybrid_optimizer_v31.py).
use goveling_ml.Prelude.{
  ℕ, zero, suc, ◌+◌, ◌-◌, ◌≤◌, ◌<◌, ◌≡◌, refl, inl, inr, some, ltb, arith, Bool-cases,
}
use goveling_ml.Prelude.Exceptions.{ok}
use goveling_ml.Breaker.{State, Attempt, record_failure, record_success}
use goveling_ml.Retry.{
  World, react, Reply, Response, served, robust_from, routing_service_robust, accept,
}
use goveling_ml.Retry.Rounds.{
  IsFailure, succeeding_call, robust_from-suc, failing_round, after_failure,
}

module _ {R : Type 0} (env : ℕ → Attempt (Response R)) where
  -- The circuit is closed and forgets its failures once an attempt is accepted.
  pub record Recovery (r : R) (calls : ℕ) (w : World) (result : Reply R × World) : Type 0 where
    pub reply : result.0 ≡ served r
    pub invocations : result.1.invoked ≡ w.invoked + calls
    pub final : result.1.breaker.state ≡ State.closed
    pub forgotten : result.1.breaker.failure_count ≡ 0

  accepted_round :
      (left attempt max_retries : ℕ) (w : World) (r : R) (response : Response R)
      → w.breaker.state ≡ State.closed
      → (env attempt).outcome ≡ ok response
      → accept response ≡ some r
      → Recovery r 1 w (robust_from (suc left) attempt max_retries env w)
  unfolding record_success
  accepted_round left i m w r response c p q =
      let w' : World = record { breaker = record_success w.breaker; invoked = w.invoked + 1 } in
      rw (robust_from-suc left i m env w w' (ok response) (succeeding_call (env i) w response p c))
        (rw (q, react)
          (record { reply = refl; invocations = refl; final = refl; forgotten = refl }))

  Recovery-from :
      (left attempt max_retries n : ℕ) (w : World) (r : R) (response : Response R)
      → left + attempt ≡ max_retries + 1
      → attempt ≤ n
      → n ≤ max_retries
      → w.breaker.state ≡ State.closed
      → w.breaker.failure_count + n < w.breaker.failure_threshold + attempt
      → ((i : ℕ) → attempt ≤ i → i < n → IsFailure (env i).outcome)
      → (env n).outcome ≡ ok response
      → accept response ≡ some r
      → Recovery r (n + 1 - attempt) w (robust_from left attempt max_retries env w)
  unfolding record_failure
  Recovery-from zero i m n w r response s lo hi c h f p q = absurd (omega arith)
  Recovery-from (suc left) i m n w r response s lo hi c h f p q = elim (Bool-cases (ltb i n)) [
    | inl before ↦
        (let o =
            Recovery-from left (i + 1) m n (after_failure env i w) r response (omega arith)
              (ground arith) hi (ground arith) (ground arith) (λ j jl jh. f j (omega arith) jh) p
              q in
          rw (failing_round env left i m w s c (f i (omega arith) (ground arith))) (record {
            reply = o.reply;
            invocations = ground arith;
            final = o.final;
            forgotten = o.forgotten;
          }))
    | inr now ↦
        (let e : n ≡ i = ground arith in
          let o = accepted_round left i m w r response c (rw e at p) q in
          record {
            reply = o.reply;
            invocations = ground arith;
            final = o.final;
            forgotten = o.forgotten;
          })
  ]

  -- If the service fails n times and then gives an acceptable answer, with n at most max_retries
  -- and below what the closed breaker still allows, the request returns that answer after n + 1
  -- calls, and the breaker is closed and counts no failure.
  pub routing_service_robust-Recovery :
      (max_retries n : ℕ) (w : World) (r : R) (response : Response R)
      → n ≤ max_retries
      → w.breaker.state ≡ State.closed
      → w.breaker.failure_count + n < w.breaker.failure_threshold
      → ((i : ℕ) → i < n → IsFailure (env i).outcome)
      → (env n).outcome ≡ ok response
      → accept response ≡ some r
      → Recovery r (n + 1) w (routing_service_robust max_retries env w)
  unfolding routing_service_robust
  routing_service_robust-Recovery m n w r response hi c h f p q =
      let o =
        Recovery-from (m + 1) 0 m n w r response (omega arith) (omega arith) hi c (omega arith)
          (λ i _ lt. f i lt) p q in
      record {
        reply = o.reply;
        invocations = omega (arith, o.invocations);
        final = o.final;
        forgotten = o.forgotten;
      }
