-- ===== src/Script/Stdlib/Breaking.antt =====
-- `std_cb_check` and `std_cb_record` of src/script/stdlib.rs, as calls that run alone.
pub mod Agreement
use modular_rust_reverse_pro.Base.{
  ℕ, ◌+◌, ◌-◌, ◌*◌, ◌%◌, ◌^◌, Option, none, some, List, Text, lit, if◌then◌else◌, leb,
}
use modular_rust_reverse_pro.Sync.{Mutex, lock, store}
use modular_rust_reverse_pro.Metrics.{Metrics, fetch_add, inc_cb_trips, inc_cb_rejects}
use modular_rust_reverse_pro.Http.Response.{HttpResponse, error}
use modular_rust_reverse_pro.Modules.CircuitBreaker.{State, closed, open_circuit, half_open, second}
use modular_rust_reverse_pro.Script.Stdlib.Arguments.{number_arg}

-- `CB_FAILURES`, `CB_STATE` and `CB_OPENED`, with the counters of src/metrics.rs
pub record Breaker : Type 0 where
  pub cb_failures : ℕ
  pub cb_state : State
  pub cb_opened : Mutex ℕ
  pub metrics : Metrics

-- What a request meets in the state that was loaded. A time that is not yet reached counts as no time passed, also
-- in a poisoned lock.
unfoldable pub check_in : ℕ → List Text → Breaker → State → Breaker × Option HttpResponse
unfolding inc_cb_rejects
check_in now args b open_circuit =
    if leb (number_arg args 1 30 * second) (now - lock (λ t. t) b.cb_opened)
    then (record b { cb_state = half_open }, none)
    else (
      record b { metrics = inc_cb_rejects b.metrics },
      some (error 503 (lit "Circuit breaker open")),
    )
check_in now args b _ = (b, none)

unfoldable pub std_cb_check : ℕ → List Text → Breaker → Breaker × Option HttpResponse
unfolding check_in
std_cb_check now args b = check_in now args b b.cb_state

-- The breaker opens: its time is stored, and the opening counted.
unfoldable pub open_up : ℕ → Breaker → Breaker
unfolding inc_cb_trips
open_up now b = record b {
  cb_state = open_circuit;
  cb_opened = store now b.cb_opened;
  metrics = inc_cb_trips b.metrics;
}

-- A failed response, in the state that was loaded.
unfoldable pub record_in : ℕ → ℕ → Breaker → State → Breaker
unfolding open_up
record_in now threshold b half_open =
    open_up now (record b { cb_failures = fetch_add b.cb_failures 1 })
record_in now threshold b closed =
    let counted = record b { cb_failures = fetch_add b.cb_failures 1 } in
    if leb threshold counted.cb_failures then open_up now counted else counted
record_in now threshold b open_circuit = record b { cb_failures = fetch_add b.cb_failures 1 }

unfoldable pub std_cb_record : ℕ → List Text → HttpResponse → Breaker → Breaker
unfolding record_in
std_cb_record now args resp b =
    if leb 500 resp.status_code
    then record_in now (number_arg args 0 5) b b.cb_state
    else record b { cb_failures = 0; cb_state = closed }
