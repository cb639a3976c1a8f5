-- ===== src/Metrics.antt =====
-- src/metrics.rs: the atomic counters. `fetch_add` on an `AtomicU64` wraps.
pub mod Latency
pub mod Printing
use modular_rust_reverse_pro.Base.{
  ℕ, zero, suc, ◌+◌, ◌-◌, ◌/◌, ◌%◌, ◌^◌, Bool, true, false, if◌then◌else◌, ltb, nat_beq, min,
  Option, none, some, List, [], ◌∷◌,
}

pub record Metrics : Type 0 where
  pub requests_total : ℕ
  pub requests_ok : ℕ
  pub requests_err : ℕ
  pub bytes_in : ℕ
  pub bytes_out : ℕ
  pub latency_sum_ms : ℕ
  pub latency_max_ms : ℕ
  pub connections_total : ℕ
  pub pool_hits : ℕ
  pub pool_misses : ℕ
  pub cb_trips : ℕ
  pub cb_rejects : ℕ

abbrev pub zeroed : Metrics
zeroed = record {
  requests_total = 0;
  requests_ok = 0;
  requests_err = 0;
  bytes_in = 0;
  bytes_out = 0;
  latency_sum_ms = 0;
  latency_max_ms = 0;
  connections_total = 0;
  pool_hits = 0;
  pool_misses = 0;
  cb_trips = 0;
  cb_rejects = 0;
}

unfoldable pub fetch_add : ℕ → ℕ → ℕ
fetch_add counter n = (counter + n) % 2 ^ 64

unfoldable pub inc_requests : Metrics → Metrics
inc_requests m = record m { requests_total = fetch_add m.requests_total 1 }

unfoldable pub inc_requests_ok : Metrics → Metrics
inc_requests_ok m = record m { requests_ok = fetch_add m.requests_ok 1 }

unfoldable pub inc_requests_err : Metrics → Metrics
inc_requests_err m = record m { requests_err = fetch_add m.requests_err 1 }

unfoldable pub add_bytes_in : ℕ → Metrics → Metrics
add_bytes_in n m = record m { bytes_in = fetch_add m.bytes_in n }

unfoldable pub add_bytes_out : ℕ → Metrics → Metrics
add_bytes_out n m = record m { bytes_out = fetch_add m.bytes_out n }

unfoldable pub inc_connections : Metrics → Metrics
inc_connections m = record m { connections_total = fetch_add m.connections_total 1 }

unfoldable pub inc_pool_hits : Metrics → Metrics
inc_pool_hits m = record m { pool_hits = fetch_add m.pool_hits 1 }

unfoldable pub inc_pool_misses : Metrics → Metrics
inc_pool_misses m = record m { pool_misses = fetch_add m.pool_misses 1 }

unfoldable pub inc_cb_trips : Metrics → Metrics
inc_cb_trips m = record m { cb_trips = fetch_add m.cb_trips 1 }

unfoldable pub inc_cb_rejects : Metrics → Metrics
inc_cb_rejects m = record m { cb_rejects = fetch_add m.cb_rejects 1 }

-- The compare-and-exchange loop of `record_latency`. The list holds what other threads had stored at
-- each attempt that failed; behind its end the exchange succeeds. A weak exchange may fail with the
-- expected value itself. The result is the value that the maximum holds when the loop ends.
unfoldable pub raise_max : ℕ → ℕ → List ℕ → ℕ
raise_max capped current [] = if ltb current capped then capped else current
raise_max capped current (seen ∷ later) =
    let retry = raise_max capped seen later in if ltb current capped then retry else current

abbrev pub latency_cap : ℕ
latency_cap = 600_000

unfoldable pub record_latency : ℕ → List ℕ → Metrics → Metrics
unfolding raise_max
record_latency ms seen m =
    let capped = min ms latency_cap in
    record m {
      latency_sum_ms = fetch_add m.latency_sum_ms capped;
      latency_max_ms = raise_max capped m.latency_max_ms seen;
    }

pub record Snapshot : Type 0 where
  pub counters : Metrics
  pub active_connections : ℕ
  pub uptime_secs : ℕ

-- `snapshot`, with the number of active connections, the time `now` and the start time, if it is set.
unfoldable pub snapshot : Metrics → ℕ → ℕ → Option ℕ → Snapshot
snapshot m active now started = record {
  counters = m;
  active_connections = active;
  uptime_secs = elim started [ none ↦ 0 | some t ↦ (now - t) / 1_000_000_000 ];
}

unfoldable pub avg_latency_ms : Snapshot → ℕ
avg_latency_ms s =
    if ltb 0 s.counters.requests_total
    then s.counters.latency_sum_ms / s.counters.requests_total
    else 0

-- What a call finds outside: the time in nanoseconds and the time of the day in microseconds, the connections
-- that are active and the time of the start, for the metrics.
pub record Moment : Type 0 where
  pub now : ℕ
  pub micros : ℕ
  pub active : ℕ
  pub started : Option ℕ
