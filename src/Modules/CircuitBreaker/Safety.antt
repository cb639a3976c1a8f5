-- ===== src/Modules/CircuitBreaker/Safety.antt =====
-- What holds of every interleaving of calls.
use modular_rust_reverse_pro.Base.{
  ℕ, zero, suc, ◌+◌, ◌-◌, ◌%◌, ◌^◌, ◌≡◌, Bool, true, false, not, ◌&&◌, List, [], ◌∷◌, arith,
}
use modular_rust_reverse_pro.Metrics.{fetch_add}
use modular_rust_reverse_pro.Modules.CircuitBreaker.{
  CircuitBreaker, State, closed, open_circuit, half_open, Pc, handle_load, handle_exchange,
  record_stamp, record_count_trip, step,
}
use modular_rust_reverse_pro.Modules.CircuitBreaker.Threads.{System, step_among, schedule}

-- The moves of the state machine: all but closed to half-open.
abbrev pub allowed : State → State → Bool
allowed closed half_open = false
allowed _ _ = true

abbrev pub is_half_open : State → Bool
is_half_open half_open = true
is_half_open _ = false

-- The access of a request that sets an open breaker to half-open.
abbrev pub is_probe : Pc → Bool
is_probe handle_exchange = true
is_probe _ = false

-- Whatever the other threads did before: an access never moves a closed breaker to half-open, and an access
-- that makes a breaker half-open that was not is the exchange of a request that waited for the recovery.
pub step-allowed :
    (now : ℕ) (b : CircuitBreaker) (p : Pc)
    → (allowed b.state (step now b p).0.state ≡ true)
      × (is_half_open (step now b p).0.state && not (is_half_open b.state) && not (is_probe p)
          ≡ false)
unfolding step
step-allowed now b handle_load = ground arith
step-allowed now b _ = ground arith

-- A thread that has opened the breaker and has not counted it yet.
abbrev owes : Pc → ℕ
owes record_stamp = 1
owes record_count_trip = 1
owes _ = 0

abbrev pub owed : List Pc → ℕ
owed [] = 0
owed (p ∷ ps) = owes p + owed ps

abbrev is_open : State → ℕ
is_open open_circuit = 1
is_open _ = 0

step-trips :
    (now : ℕ) (b : CircuitBreaker) (p : Pc)
    → ((step now b p).0.cb_trips + owes (step now b p).1) % 2 ^ 64
      ≡ (b.cb_trips + owes p + (is_open (step now b p).0.state - is_open b.state)) % 2 ^ 64
unfolding step fetch_add
step-trips now b handle_load = ground arith
step-trips now b _ = ground arith

-- The openings among the moves of a schedule.
unfoldable pub openings : List (ℕ × ℕ) → System → ℕ
openings [] s = 0
openings ((now, i) ∷ rest) s =
    let s' = step_among now i s.breaker s.threads in
    is_open s'.breaker.state - is_open s.breaker.state + openings rest s'

step_among-trips :
    (now i : ℕ) (b : CircuitBreaker) (ps : List Pc)
    → let s = step_among now i b ps in
      (s.breaker.cb_trips + owed s.threads) % 2 ^ 64
      ≡ (b.cb_trips + owed ps + (is_open s.breaker.state - is_open b.state)) % 2 ^ 64
unfolding step_among
step_among-trips now i b [] = omega arith
step_among-trips now zero b (p ∷ ps) = omega (arith, step-trips now b p)
step_among-trips now (suc i) b (p ∷ ps) = omega (arith, step_among-trips now i b ps)

-- On every schedule of any number of calls, each opening of the breaker is counted once: the trips counted at
-- the end and those that threads are still to count are, modulo 2^64, those from the start and the openings.
pub schedule-trips :
    (moves : List (ℕ × ℕ)) (s : System)
    → let t = schedule moves s in
      (t.breaker.cb_trips + owed t.threads) % 2 ^ 64
      ≡ (s.breaker.cb_trips + owed s.threads + openings moves s) % 2 ^ 64
unfolding schedule openings
schedule-trips [] s = omega arith
schedule-trips ((now, i) ∷ rest) s = omega (
  arith,
  step_among-trips now i s.breaker s.threads,
  schedule-trips rest (step_among now i s.breaker s.threads),
)
