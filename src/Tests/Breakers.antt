-- ===== src/Tests/Breakers.antt =====
-- The circuit breakers of utils/hybrid_optimizer_v31.py on concrete calls.
use goveling_ml.Prelude.{ℕ, ◌+◌, ◌≡◌, refl, some, List, [], ◌∷◌, ◌++◌, map, arith}
use goveling_ml.Prelude.Exceptions.{ok, err, circuit_open, other_error}
use goveling_ml.Breaker.{CircuitBreaker, State, Attempt, call}
use goveling_ml.Breaker.Interleaving.{enter, succeed, fail, run, step, IsValid, run-IsValid}
use goveling_ml.Breaker.Calls.{trip_exact}
use goveling_ml.City2GraphBreaker.{City2GraphCircuitBreaker, calls}
use goveling_ml.City2GraphBreaker.Counting as Counting
use goveling_ml.City2GraphBreaker.Counting.{call-IsValid, calls_count, calls_trip}

-- The routing breaker after its third failure, at 12 seconds.
abbrev tripped : CircuitBreaker
tripped = record {
  failure_threshold = 3;
  timeout = 15000;
  recovery_timeout = 60000;
  failure_count = 3;
  last_failure_time = some 12000;
  state = State.opened;
}

abbrev fresh : CircuitBreaker
fresh = record {
  failure_threshold = 3;
  timeout = 15000;
  recovery_timeout = 60000;
  failure_count = 0;
  last_failure_time = some 0;
  state = State.closed;
}

abbrev answer : ℕ → Attempt ℕ
answer t = record { started = t; finished = t + 500; outcome = ok 7 }

abbrev failing : ℕ → Attempt ℕ
failing t = record { started = t; finished = t + 500; outcome = err other_error }

refused_then_recovers :
    ((call (answer 72000) tripped).0 ≡ err circuit_open)
    × ((call (answer 72001) tripped).0 ≡ ok 7)
    × ((call (answer 72001) tripped).1.state ≡ State.closed)
unfolding call
refused_then_recovers = (refl, refl, refl)

-- A call that was admitted before the circuit opened closes it when it succeeds.
late_success_closes :
    (run
      (enter 0 ∷ enter 0 ∷ enter 0 ∷ enter 0 ∷ fail 1 ∷ fail 2 ∷ fail 3 ∷ succeed ∷ [])
      fresh).state
    ≡ State.closed
unfolding run step
late_success_closes = refl

tripped-IsValid : IsValid tripped
tripped-IsValid = ground arith

run-IsValid_example : IsValid (run (enter 80000 ∷ fail 80500 ∷ succeed ∷ []) tripped)
run-IsValid_example = run-IsValid (enter 80000 ∷ fail 80500 ∷ succeed ∷ []) tripped tripped-IsValid

trip_exact_example :
    (run ((fail 1 ∷ fail 2 ∷ []) ++ succeed ∷ map fail (5 ∷ 6 ∷ 7 ∷ [])) fresh).state ≡ State.opened
trip_exact_example = trip_exact (fail 1 ∷ fail 2 ∷ []) (5 ∷ 6 ∷ 7 ∷ []) fresh (omega arith)

abbrev graph : City2GraphCircuitBreaker
graph = record {
  failure_count = 0;
  failure_threshold = 3;
  last_failure_time = some 0;
  state = State.closed;
  recovery_timeout = 300000;
}

graph-IsValid : Counting.IsValid graph
graph-IsValid = ground arith

-- Two failures with successes between them.
abbrev mixed : List (Attempt ℕ)
mixed = failing 1000 ∷ answer 2000 ∷ answer 3000 ∷ failing 4000 ∷ answer 5000 ∷ []

calls_count_example :
    ((calls mixed graph).state ≡ State.closed)
    × ((calls mixed graph).failure_count ≡ 2)
    × ((calls mixed graph).failure_threshold ≡ 3)
calls_count_example = calls_count mixed graph refl (omega arith)
