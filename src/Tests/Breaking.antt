-- ===== src/Tests/Breaking.antt =====
-- The circuit breaker of src/modules/circuit_breaker.rs on concrete calls.
use modular_rust_reverse_pro.Base.{
  ℕ, ◌+◌, ◌*◌, ◌%◌, ◌^◌, ◌≡◌, refl, none, some, List, [], ◌∷◌, lit, arith,
}
use modular_rust_reverse_pro.Http.Response.{error}
use modular_rust_reverse_pro.Modules.CircuitBreaker.{
  CircuitBreaker, closed, open_circuit, half_open, handle, on_response, record_stamp, handled,
  second,
}
use modular_rust_reverse_pro.Modules.CircuitBreaker.Calls.{
  records, on_response-eq-records, rejects_until_recovery,
}
use modular_rust_reverse_pro.Modules.CircuitBreaker.Threads.{System, schedule}
use modular_rust_reverse_pro.Modules.CircuitBreaker.Safety.{owed, openings, schedule-trips}
use modular_rust_reverse_pro.Modules.CircuitBreaker.Race.{contenders, trip_race}

-- Two failures open it, for 30 seconds.
abbrev calm : CircuitBreaker
calm = record {
  threshold = 2;
  recovery_secs = 30;
  failures = 0;
  state = closed;
  opened_at = 0;
  cb_trips = 0;
  cb_rejects = 0;
}

abbrev tripped : CircuitBreaker
tripped = record calm { failures = 2; state = open_circuit; opened_at = 5 * second; cb_trips = 1 }

abbrev tense : CircuitBreaker
tense = record calm { failures = 1 }

on_response-eq-records_example : on_response 7 503 tense ≡ records 7 503 tense
on_response-eq-records_example = on_response-eq-records 7 503 tense

rejects_until_recovery_example :
    ((handle (9 * second) tripped).1 ≡ some (error 503 (lit "Circuit breaker open")))
    × ((handle (9 * second) tripped).0.state ≡ open_circuit)
rejects_until_recovery_example = rejects_until_recovery tripped (9 * second) refl (omega arith)

abbrev pair : System
pair = contenders tense 500

abbrev moves : List (ℕ × ℕ)
moves = (6, 0) ∷ (6, 0) ∷ (6, 1) ∷ (6, 0) ∷ []

schedule-trips_example :
    ((schedule moves pair).breaker.cb_trips + owed (schedule moves pair).threads) % 2 ^ 64
    ≡ (pair.breaker.cb_trips + owed pair.threads + openings moves pair) % 2 ^ 64
schedule-trips_example = schedule-trips moves pair

trip_race_example :
    (moves : List (ℕ × ℕ)) × ((schedule moves pair).breaker.state ≡ half_open)
    × ((schedule moves pair).threads ≡ record_stamp ∷ handled none ∷ [])
trip_race_example =
    trip_race tense (30 * second) 500 refl (omega arith) (omega arith) (omega arith) (omega arith)
