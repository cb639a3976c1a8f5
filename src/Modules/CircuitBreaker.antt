-- ===== src/Modules/CircuitBreaker.antt =====
-- src/modules/circuit_breaker.rs. Each access to an atomic or to the mutex is one step; a call is the
-- sequence of its steps, which the steps of other threads may interleave.
pub mod Calls
pub mod Threads
pub mod Safety
pub mod Race
use modular_rust_reverse_pro.Base.{
  ℕ, zero, suc, ◌+◌, ◌-◌, ◌*◌, ◌%◌, ◌^◌, Bool, true, false, ◌&&◌, Option, none, some, List, [], ◌∷◌,
  Text, lit, if◌then◌else◌, ltb, leb, nat_beq,
}
use modular_rust_reverse_pro.Metrics.{fetch_add}
use modular_rust_reverse_pro.Http.Response.{HttpResponse, error}

-- `STATE_CLOSED`, `STATE_OPEN`, `STATE_HALF_OPEN`
pub data State : Type 0 where
  closed open_circuit half_open : State

unfoldable pub state_beq : State → State → Bool
state_beq closed closed = true
state_beq open_circuit open_circuit = true
state_beq half_open half_open = true
state_beq _ _ = false

-- The breaker, with the two counters of src/metrics.rs that it moves. Times are in nanoseconds.
pub record CircuitBreaker : Type 0 where
  pub threshold : ℕ
  pub recovery_secs : ℕ
  pub failures : ℕ
  pub state : State
  pub opened_at : ℕ
  pub cb_trips : ℕ
  pub cb_rejects : ℕ

-- What `register` creates at time `now`.
unfoldable pub create : ℕ → ℕ → ℕ → CircuitBreaker
create threshold recovery now = record {
  threshold = threshold;
  recovery_secs = recovery;
  failures = 0;
  state = closed;
  opened_at = now;
  cb_trips = 0;
  cb_rejects = 0;
}

abbrev pub second : ℕ
second = 1_000_000_000

-- `compare_exchange`: the new breaker, and whether the exchange was made.
unfoldable pub compare_exchange : State → State → CircuitBreaker → CircuitBreaker × Bool
unfolding state_beq
compare_exchange from to b =
    if state_beq b.state from then (record b { state = to }, true) else (b, false)

-- Where a call stands: what it has read, and which access comes next. A call of `handle` ends with the
-- response it makes, if any; a call of `on_response` has the status code of the response.
pub data Pc : Type 0 where
  handle_load : Pc
  handle_elapsed : Pc
  handle_exchange : Pc
  handle_reject : Pc
  handled : Option HttpResponse → Pc
  record_load : (status_code : ℕ) → Pc
  record_failure : (seen : State) → Pc
  record_reopen : Pc
  record_trip : Pc
  record_stamp : Pc
  record_count_trip : Pc
  record_reset : Pc
  record_close : Pc
  recorded : Pc

after_load : State → Pc
after_load open_circuit = handle_elapsed
after_load _ = handled none

after_failure : State → Bool → Pc
after_failure half_open _ = record_reopen
after_failure _ true = record_trip
after_failure _ false = recorded

exchanged : CircuitBreaker × Bool → Pc → Pc → CircuitBreaker × Pc
exchanged (b, true) p q = (b, p)
exchanged (b, false) p q = (b, q)

-- One access, at time `now`.
unfoldable pub step : ℕ → CircuitBreaker → Pc → CircuitBreaker × Pc
unfolding after_load after_failure exchanged compare_exchange fetch_add
step now b handle_load = (b, after_load b.state)
step now b handle_elapsed = (
  b,
  if leb (b.recovery_secs * second) (now - b.opened_at) then handle_exchange else handle_reject,
)
step now b handle_exchange =
    exchanged (compare_exchange open_circuit half_open b) (handled none) (handled none)
step now b handle_reject = (
  record b { cb_rejects = fetch_add b.cb_rejects 1 },
  handled (some (error 503 (lit "Circuit breaker open"))),
)
step now b (handled r) = (b, handled r)
step now b (record_load code) = (b, if leb 500 code then record_failure b.state else record_reset)
step now b (record_failure seen) =
    let count = fetch_add b.failures 1 in
    (record b { failures = count }, after_failure seen (leb b.threshold count))
step now b record_reopen =
    exchanged (compare_exchange half_open open_circuit b) record_stamp recorded
step now b record_trip = exchanged (compare_exchange closed open_circuit b) record_stamp recorded
step now b record_stamp = (record b { opened_at = now }, record_count_trip)
step now b record_count_trip = (record b { cb_trips = fetch_add b.cb_trips 1 }, recorded)
step now b record_reset = (record b { failures = 0 }, record_close)
step now b record_close = (record b { state = closed }, recorded)
step now b recorded = (b, recorded)

-- Six accesses end every call.
run : ℕ → ℕ → CircuitBreaker × Pc → CircuitBreaker × Pc
unfolding step
run zero now (b, p) = (b, p)
run (suc n) now (b, p) = run n now (step now b p)

response_of : Pc → Option HttpResponse
response_of (handled r) = r
response_of _ = none

-- The two methods, where no other thread interferes and the clock stands at `now`.
unfoldable pub handle : ℕ → CircuitBreaker → CircuitBreaker × Option HttpResponse
unfolding run response_of
handle now b = let (b', p) = run 6 now (b, handle_load) in (b', response_of p)

unfoldable pub on_response : ℕ → ℕ → CircuitBreaker → CircuitBreaker
unfolding run
on_response now code b = (run 6 now (b, record_load code)).0
