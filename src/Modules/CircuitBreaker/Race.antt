-- ===== src/Modules/CircuitBreaker/Race.antt =====
-- The accesses that open the breaker and keep the time of the opening are two, so that another thread may
-- come in between.
use modular_rust_reverse_pro.Base.{
  ℕ, ◌+◌, ◌-◌, ◌*◌, ◌^◌, ◌≤◌, ◌<◌, ◌≡◌, none, List, [], ◌∷◌, le→leb, arith,
}
use modular_rust_reverse_pro.Metrics.{fetch_add}
use modular_rust_reverse_pro.Modules.CircuitBreaker.{
  CircuitBreaker, closed, half_open, handle_load, record_load, record_stamp, handled, step, second,
}
use modular_rust_reverse_pro.Modules.CircuitBreaker.Threads.{System, schedule}

-- A response of the backend and a request, neither of them begun.
abbrev pub contenders : CircuitBreaker → ℕ → System
contenders b code = record { breaker = b; threads = record_load code ∷ handle_load ∷ [] }

-- A failed response that reaches the threshold of a closed breaker, beside a request, at one time `now` that is
-- `recovery_secs` or more after the time that the breaker keeps: there is a schedule on which the request passes
-- and the breaker stands half-open while the thread that tripped it has not yet stored the time of the
-- opening. The recovery time is not waited for.
pub trip_race :
    (b : CircuitBreaker) (now code : ℕ)
    → b.state ≡ closed
    → b.threshold ≤ b.failures + 1
    → b.failures + 1 < 2 ^ 64
    → b.opened_at + b.recovery_secs * second ≤ now
    → 500 ≤ code
    → (moves : List (ℕ × ℕ)) × ((schedule moves (contenders b code)).breaker.state ≡ half_open)
      × ((schedule moves (contenders b code)).threads ≡ record_stamp ∷ handled none ∷ [])
unfolding schedule step fetch_add
trip_race b now code e reached small late fails =
    let ready = le→leb (b.recovery_secs * second) (now - b.opened_at) (omega arith) in
    (
      (now, 0) ∷ (now, 0) ∷ (now, 0) ∷ (now, 1) ∷ (now, 1) ∷ (now, 1) ∷ [],
      ground (arith, ready),
      ground (arith, ready),
    )
