-- ===== src/Tests/Retries.antt =====
-- The retry loops of utils/hybrid_optimizer_v31.py on concrete services.
use goveling_ml.Prelude.{
  ℕ, ◌+◌, ◌*◌, ◌≤◌, ◌<◌, ◌≡◌, refl, true, false, some, none, arith, ◌==◌, if◌then◌else◌,
}
use goveling_ml.Prelude.Exceptions.{Result, ok, err, timeout_error, quota_exceeded}
use goveling_ml.Breaker
use goveling_ml.Breaker.{CircuitBreaker, State, Attempt, is_open, call}
use goveling_ml.Retry.{
  World, Response, hybrid, emergency, synthetic, protected_call, routing_service_robust,
  robust_from, places_service_robust, places_from,
}
use goveling_ml.Retry.Rounds.{IsFailure}
use goveling_ml.Retry.Outage.{IsDown, Outage, routing_service_robust-Outage}
use goveling_ml.Retry.Recovery.{Recovery, routing_service_robust-Recovery}
use goveling_ml.Retry.Places.{Explains, places_service_robust-IsExplained}
use goveling_ml.Retry.Fallback.{emergency_routing_fallback}

-- The routing breaker of the optimizer: three failures open it for a minute.
abbrev world : World
world = record { breaker = Breaker.init 3 15000 60000; invoked = 0 }

-- Attempt i starts i * 5 seconds after the first and lasts one second.
abbrev timed : {A : Type 0} → (ℕ → Result A) → ℕ → Attempt A
timed outcome i = record { started = i * 5000; finished = i * 5000 + 1000; outcome = outcome i }

abbrev down : ℕ → Attempt (Response ℕ)
down = timed (λ i. err timeout_error)

-- The third attempt succeeds.
abbrev flaky_outcome : ℕ → Result (Response ℕ)
flaky_outcome i =
    if i == 2 then ok (hybrid (some (record { success = true; route = 42 }))) else err timeout_error

-- Four attempts are allowed, but the circuit opens after three.
outage_runs : routing_service_robust 3 down world ≡ (
  emergency,
  record {
    breaker = record {
      failure_threshold = 3;
      timeout = 15000;
      recovery_timeout = 60000;
      failure_count = 3;
      last_failure_time = some 11000;
      state = State.opened;
    };
    invoked = 3;
  },
)
unfolding routing_service_robust robust_from protected_call Breaker.init
outage_runs = refl

abbrev unsuccessful : ℕ → Attempt (Response ℕ)
unsuccessful = timed (λ i. ok (hybrid none))

-- An unsuccessful result is retried four times and never counts against the breaker.
unsuccessful_runs :
    let (r, w) = routing_service_robust 3 unsuccessful world in
    (r ≡ emergency) × (w.invoked ≡ 4) × (w.breaker.failure_count ≡ 0)
unfolding routing_service_robust robust_from protected_call Breaker.init
unsuccessful_runs = (refl, refl, refl)

fallback_runs : (emergency_routing_fallback 2500 "drive").duration_minutes ≡ 5
unfolding emergency_routing_fallback
fallback_runs = refl

down-IsDown : IsDown down 60000
down-IsDown = record { fails = λ i e. cc; soon = λ i. omega arith }

routing_service_robust-Outage_example : Outage down 4 world (routing_service_robust 3 down world)
unfolding Breaker.init
routing_service_robust-Outage_example =
    routing_service_robust-Outage down 3 world refl (omega arith) down-IsDown

flaky_fails : (i : ℕ) → i < 2 → IsFailure (timed flaky_outcome i).outcome
flaky_fails i h = let e : (i == 2) ≡ false = ground arith in rw e (λ p. cc)

routing_service_robust-Recovery_example :
    Recovery (timed flaky_outcome) 42 3 world (routing_service_robust 3 (timed flaky_outcome) world)
unfolding Breaker.init
routing_service_robust-Recovery_example =
    routing_service_robust-Recovery (timed flaky_outcome) 3 2 world 42
      (hybrid (some (record { success = true; route = 42 }))) (omega arith) refl (omega arith)
      flaky_fails refl refl

-- The first attempt times out, the second exceeds the quota.
abbrev quota : ℕ → Attempt ℕ
quota = timed (λ i. if i == 1 then err quota_exceeded else err timeout_error)

quota_runs : (places_service_robust 3 quota world).0 ≡ synthetic
unfolding places_service_robust places_from protected_call Breaker.init
quota_runs = refl

places_service_robust-IsExplained_example :
    Explains quota 3 world (places_service_robust 3 quota world)
    × ((places_service_robust 3 quota world).1.invoked ≤ 4)
places_service_robust-IsExplained_example = places_service_robust-IsExplained 3 quota world
