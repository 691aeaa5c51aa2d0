-- ===== src/Retry.antt =====
-- `routing_service_robust` and `places_service_robust` of utils/hybrid_optimizer_v31.py: the retry
-- loops around the protected services. The services are not modelled: attempt number i of a request
-- is `env i`, when it starts and ends and how its `asyncio.wait_for` ends. Sleeping between two
-- attempts shows only in those times.
pub mod Fallback
pub mod Rounds
pub mod Outage
pub mod Recovery
pub mod Places
use goveling_ml.Prelude.{
  ℕ, zero, suc, ◌+◌, Bool, true, false, Option, none, some, ltb, if◌then◌else◌,
}
use goveling_ml.Prelude.Exceptions.{
  Exception, Result, ok, err, circuit_open, quota_exceeded, timeout_error, connection_error,
}
use goveling_ml.Breaker.{CircuitBreaker, Attempt, is_open, call}

pub record RoutingResult (R : Type 0) : Type 0 where
  pub success : Bool
  pub route : R

-- `get_route` of HybridRoutingService returns a result or None, `eta_between` of FreeRoutingService
-- its answer.
pub data Response (R : Type 0) : Type 0 where
  hybrid : Option (RoutingResult R) → Response R
  free : R → Response R

-- `emergency` is the dictionary of the emergency fallback.
pub data Reply (R : Type 0) : Type 0 where
  served : R → Reply R
  emergency : Reply R

-- The breaker, and the calls that have reached the service.
pub record World : Type 0 where
  pub breaker : CircuitBreaker
  pub invoked : ℕ

module _ {A : Type 0} where
  -- `breaker.call`; the service is called unless the check refuses.
  unfoldable pub protected_call : Attempt A → World → Result A × World
  unfolding is_open call
  protected_call t w =
      let (r, b) = call t w.breaker in
      (
        r,
        record {
          breaker = b;
          invoked = elim ((is_open t.started w.breaker).0) [
            | ok refused ↦ (if refused then w.invoked else w.invoked + 1)
            | err e ↦ w.invoked
          ];
        },
      )

module _ {R : Type 0} where
  -- None where the code raises `HybridRoutingService returned unsuccessful result`.
  abbrev pub accept : Response R → Option R
  accept (hybrid none) = none
  accept (hybrid (some r)) = if r.success then some r.route else none
  accept (free r) = some r

  -- `attempt < self.max_retries`: go on with the next attempt, or give up.
  abbrev pub retry : ℕ → ℕ → World → Reply R × World → Reply R × World
  retry max_retries attempt w next = if ltb attempt max_retries then next else (emergency, w)

  abbrev pub react : ℕ → ℕ → Result (Response R) → World → Reply R × World → Reply R × World
  react max_retries attempt (ok response) w next = elim (accept response) [
    | some r ↦ (served r, w)
    | none ↦ retry max_retries attempt w next
  ]
  react max_retries attempt (err circuit_open) w next = (emergency, w)
  react max_retries attempt (err e) w next = retry max_retries attempt w next

  -- `left` rounds of `for attempt in range(max_retries + 1)` are left.
  unfoldable pub robust_from :
      (left attempt max_retries : ℕ) → (ℕ → Attempt (Response R)) → World → Reply R × World
  robust_from zero attempt max_retries env w = (emergency, w)
  robust_from (suc left) attempt max_retries env w =
      let (r, w') = protected_call (env attempt) w in
      let next = robust_from left (attempt + 1) max_retries env w' in
      react max_retries attempt r w' next

  unfoldable pub routing_service_robust : ℕ → (ℕ → Attempt (Response R)) → World → Reply R × World
  unfolding robust_from
  routing_service_robust max_retries env w = robust_from (max_retries + 1) 0 max_retries env w

-- `found` is the list of the service, `synthetic` and `emergency` the two fallbacks.
pub data PlacesReply (R : Type 0) : Type 0 where
  found : R → PlacesReply R
  synthetic : PlacesReply R
  emergency : PlacesReply R

module _ {R : Type 0} where
  abbrev pub retry_places : ℕ → ℕ → World → PlacesReply R × World → PlacesReply R × World
  retry_places max_retries attempt w next =
      if ltb attempt max_retries then next else (PlacesReply.emergency, w)

  abbrev pub react_places : ℕ → ℕ → Result R → World → PlacesReply R × World → PlacesReply R × World
  react_places max_retries attempt (ok r) w next = (found r, w)
  react_places max_retries attempt (err circuit_open) w next = (PlacesReply.emergency, w)
  react_places max_retries attempt (err quota_exceeded) w next = (synthetic, w)
  react_places max_retries attempt (err e) w next = retry_places max_retries attempt w next

  unfoldable pub places_from :
      (left attempt max_retries : ℕ) → (ℕ → Attempt R) → World → PlacesReply R × World
  places_from zero attempt max_retries env w = (PlacesReply.emergency, w)
  places_from (suc left) attempt max_retries env w =
      let (r, w') = protected_call (env attempt) w in
      let next = places_from left (attempt + 1) max_retries env w' in
      react_places max_retries attempt r w' next

  unfoldable pub places_service_robust : ℕ → (ℕ → Attempt R) → World → PlacesReply R × World
  unfolding places_from
  places_service_robust max_retries env w = places_from (max_retries + 1) 0 max_retries env w
