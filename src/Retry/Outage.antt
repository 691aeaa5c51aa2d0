-- ===== src/Retry/Outage.antt =====
-- The retry loop of `routing_service_robust` while the service is down
-- (utils/hybrid_optimizer_v31.py).
use goveling_ml.Prelude.{
  ℕ, zero, suc, ◌+◌, ◌-◌, ◌≤◌, ◌<◌, ◌≡◌, refl, inl, inr, some, min, leb, arith, if◌then◌else◌,
  Bool-cases,
}
use goveling_ml.Breaker.{State, Attempt, record_failure}
use goveling_ml.Retry.{World, Reply, Response, emergency, robust_from, routing_service_robust}
use goveling_ml.Retry.Rounds.{IsFailure, cooling_call, failing_round, after_failure}

module _ {R : Type 0} (env : ℕ → Attempt (Response R)) where
  -- The service is down, and no attempt starts later than the recovery time after the last one.
  pub record IsDown (recovery : ℕ) : Type 0 where
    pub fails : (i : ℕ) → IsFailure (env i).outcome
    pub soon : (i : ℕ) → (env (i + 1)).started - (env i).finished ≤ recovery

  pub record Outage (left : ℕ) (w : World) (result : Reply R × World) : Type 0 where
    pub reply : result.0 ≡ emergency
    pub invocations :
        result.1.invoked
        ≡ w.invoked + min left (w.breaker.failure_threshold - w.breaker.failure_count)
    pub final : result.1.breaker.state ≡ (
        if leb w.breaker.failure_threshold (w.breaker.failure_count + left)
        then State.opened
        else State.closed)

  -- Once the circuit is open the next round asks nothing of the service and gives up.
  opened_from :
      (left attempt max_retries : ℕ) (w : World)
      → w.breaker.state ≡ State.opened
      → w.breaker.last_failure_time ≡ some (env attempt).finished
      → IsDown w.breaker.recovery_timeout
      → robust_from left (attempt + 1) max_retries env w ≡ (emergency, w)
  unfolding robust_from
  opened_from zero i m w o l d = refl
  opened_from (suc left) i m w o l d =
      rw (cooling_call (env (i + 1)) w (env i).finished o l (d.soon i)) refl

  Outage-from :
      (left attempt max_retries : ℕ) (w : World)
      → left + attempt ≡ max_retries + 1
      → w.breaker.state ≡ State.closed
      → w.breaker.failure_count < w.breaker.failure_threshold
      → IsDown w.breaker.recovery_timeout
      → Outage left w (robust_from left attempt max_retries env w)
  unfolding robust_from record_failure
  Outage-from zero i m w s c h d = record {
    reply = refl;
    invocations = omega arith;
    final = ground arith;
  }
  Outage-from (suc left) i m w s c h d =
      rw (failing_round env left i m w s c (d.fails i))
        (elim (Bool-cases (leb w.breaker.failure_threshold (w.breaker.failure_count + 1))) [
          | inl trip ↦
              rw (opened_from left i m (after_failure env i w) (ground arith) refl d)
                (record { reply = refl; invocations = ground arith; final = ground arith })
          | inr keep ↦
              (let o =
                  Outage-from left (i + 1) m (after_failure env i w) (omega arith) (ground arith)
                    (ground arith) d in
                record { reply = o.reply; invocations = ground arith; final = ground arith })
        ])

  -- While the service is down, a request that finds the circuit closed ends with the emergency
  -- route; it asks the service once for each failure that the breaker still allows, and at most
  -- max_retries + 1 times; and it leaves the circuit open exactly if that reached the threshold.
  pub routing_service_robust-Outage :
      (max_retries : ℕ) (w : World)
      → w.breaker.state ≡ State.closed
      → w.breaker.failure_count < w.breaker.failure_threshold
      → IsDown w.breaker.recovery_timeout
      → Outage (max_retries + 1) w (routing_service_robust max_retries env w)
  unfolding routing_service_robust
  routing_service_robust-Outage m w c h d = Outage-from (m + 1) 0 m w (omega arith) c h d
