-- ===== src/Script/Stdlib/Breaking/Agreement.antt =====
-- The breaker of the scripts beside that of src/modules/circuit_breaker.rs.
use modular_rust_reverse_pro.Base.{
  ℕ, ◌≡◌, refl, sym, ap, ◌∙◌, List, Text, arith, leb, inl, inr, Bool-cases,
}
use modular_rust_reverse_pro.Sync.{Mutex, lock}
use modular_rust_reverse_pro.Metrics.{inc_cb_trips, inc_cb_rejects}
use modular_rust_reverse_pro.Http.Response.{HttpResponse}
use modular_rust_reverse_pro.Modules.CircuitBreaker.{
  CircuitBreaker, State, closed, open_circuit, half_open, handle, on_response,
}
use modular_rust_reverse_pro.Modules.CircuitBreaker.Calls.{
  admits, fails, records, handle-eq-admits, on_response-eq-records,
}
use modular_rust_reverse_pro.Script.Stdlib.Arguments.{number_arg}
use modular_rust_reverse_pro.Script.Stdlib.Breaking.{
  Breaker, check_in, record_in, open_up, std_cb_check, std_cb_record,
}

-- The breaker of the module with the same state, and with the threshold and the recovery time of these arguments.
abbrev pub breaker_of : ℕ → ℕ → Breaker → CircuitBreaker
breaker_of threshold recovery b = record {
  threshold = threshold;
  recovery_secs = recovery;
  failures = b.cb_failures;
  state = b.cb_state;
  opened_at = b.cb_opened.inner;
  cb_trips = b.metrics.cb_trips;
  cb_rejects = b.metrics.cb_rejects;
}

lock_same : (m : Mutex ℕ) → lock (λ t. t) m ≡ m.inner
lock_same m = ground arith

check_in-admits :
    (now threshold : ℕ) (args : List Text) (b : Breaker) (s : State)
    → (breaker_of threshold (number_arg args 1 30) (check_in now args b s).0
        ≡ (admits now (breaker_of threshold (number_arg args 1 30) b) s).0)
      × ((check_in now args b s).1
          ≡ (admits now (breaker_of threshold (number_arg args 1 30) b) s).1)
unfolding check_in inc_cb_rejects
check_in-admits now threshold args b open_circuit = rw (lock_same b.cb_opened) (ground arith)
check_in-admits now threshold args b closed = (refl, refl)
check_in-admits now threshold args b half_open = (refl, refl)

record_in-fails :
    (now threshold recovery : ℕ) (b : Breaker) (s : State)
    → breaker_of threshold recovery (record_in now threshold b s)
      ≡ fails now (breaker_of threshold recovery b) s
unfolding record_in open_up inc_cb_trips
record_in-fails now threshold recovery b half_open = refl
record_in-fails now threshold recovery b open_circuit = refl
record_in-fails now threshold recovery b closed = ground arith

std_cb_record-records :
    (now recovery : ℕ) (args : List Text) (resp : HttpResponse) (b : Breaker)
    → breaker_of (number_arg args 0 5) recovery (std_cb_record now args resp b)
      ≡ records now resp.status_code (breaker_of (number_arg args 0 5) recovery b)
unfolding std_cb_record
std_cb_record-records now recovery args resp b =
    let same = record_in-fails now (number_arg args 0 5) recovery b b.cb_state in
    elim (Bool-cases (leb 500 resp.status_code)) [
      | inl bad ↦ rw (bad, std_cb_record) same
      | inr good ↦ rw (good, std_cb_record) refl
    ]

-- Calls that run alone of `circuit_breaker.check` and `circuit_breaker.record` in a script do what `handle` and `on_response` of the
-- module do to a breaker with the same state, threshold and recovery time: the same failures, state, time and counters, and the same
-- response, also where the lock of the time is poisoned. The threshold that is given to the check makes no difference.
pub std_cb-eq-module :
    (now recovery threshold : ℕ) (args : List Text) (resp : HttpResponse) (b : Breaker)
    → let wait = number_arg args 1 30 in
      let limit = number_arg args 0 5 in
      (breaker_of threshold wait (std_cb_check now args b).0
        ≡ (handle now (breaker_of threshold wait b)).0)
      × ((std_cb_check now args b).1 ≡ (handle now (breaker_of threshold wait b)).1)
      × (breaker_of limit recovery (std_cb_record now args resp b)
          ≡ on_response now resp.status_code (breaker_of limit recovery b))
unfolding std_cb_check
std_cb-eq-module now recovery threshold args resp b =
    let part = breaker_of threshold (number_arg args 1 30) b in
    let a = check_in-admits now threshold args b b.cb_state in
    (
      a.0 ∙ sym (ap (λ r. r.0) (handle-eq-admits now part)),
      a.1 ∙ sym (ap (λ r. r.1) (handle-eq-admits now part)),
      std_cb_record-records now recovery args resp b
          ∙ sym (
              on_response-eq-records now resp.status_code
                (breaker_of (number_arg args 0 5) recovery b)),
    )
