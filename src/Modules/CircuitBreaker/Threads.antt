-- ===== src/Modules/CircuitBreaker/Threads.antt =====
-- Several calls at once: each thread stands at a point of its call, and a schedule says which one makes
-- its next access, and when.
use modular_rust_reverse_pro.Base.{ℕ, zero, suc, List, [], ◌∷◌}
use modular_rust_reverse_pro.Modules.CircuitBreaker.{CircuitBreaker, Pc, step}

pub record System : Type 0 where
  pub breaker : CircuitBreaker
  pub threads : List Pc

-- The thread with index `i` makes one access at time `now`; without such a thread nothing happens.
unfoldable pub step_among : ℕ → ℕ → CircuitBreaker → List Pc → System
step_among now i b [] = record { breaker = b; threads = [] }
step_among now zero b (p ∷ ps) =
    let (b', p') = step now b p in record { breaker = b'; threads = p' ∷ ps }
step_among now (suc i) b (p ∷ ps) =
    let rest = step_among now i b ps in
    record { breaker = rest.breaker; threads = p ∷ rest.threads }

unfoldable pub schedule : List (ℕ × ℕ) → System → System
unfolding step_among
schedule [] s = s
schedule ((now, i) ∷ rest) s = schedule rest (step_among now i s.breaker s.threads)
