-- ===== src/Metrics/Latency.antt =====
-- The latency counters of src/metrics.rs.
use modular_rust_reverse_pro.Base.{ℕ, ◌≤◌, List, [], ◌∷◌, All, min, arith}
use modular_rust_reverse_pro.Metrics.{Metrics, raise_max, latency_cap, record_latency}

le-raise_max : (capped current : ℕ) (seen : List ℕ) → capped ≤ raise_max capped current seen
unfolding raise_max
le-raise_max capped current [] = ground arith
le-raise_max capped current (s ∷ seen) = ground (arith, le-raise_max capped s seen)

raise_max-le :
    (capped current bound : ℕ) (seen : List ℕ)
    → capped ≤ bound
    → current ≤ bound
    → All (λ s. s ≤ bound) seen
    → raise_max capped current seen ≤ bound
unfolding raise_max
raise_max-le capped current bound [] h k all = ground arith
raise_max-le capped current bound (s ∷ seen) h k all =
    ground (arith, raise_max-le capped s bound seen h all.0 all.1)

-- If the maximum, and every value of it that other threads store meanwhile, is at most ten minutes, then after a
-- report it is at least the reported latency, cut at ten minutes, and still at most ten minutes.
pub record_latency-bounds :
    (ms : ℕ) (seen : List ℕ) (m : Metrics)
    → m.latency_max_ms ≤ latency_cap
    → All (λ s. s ≤ latency_cap) seen
    → (min ms latency_cap ≤ (record_latency ms seen m).latency_max_ms)
      × ((record_latency ms seen m).latency_max_ms ≤ latency_cap)
unfolding record_latency
record_latency-bounds ms seen m h all = (
  le-raise_max (min ms latency_cap) m.latency_max_ms seen,
  raise_max-le (min ms latency_cap) m.latency_max_ms latency_cap seen (omega arith) h all,
)
