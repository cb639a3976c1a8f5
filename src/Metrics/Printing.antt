-- ===== src/Metrics/Printing.antt =====
-- The two printers of src/metrics.rs.
use modular_rust_reverse_pro.Base.{ℕ, List, [], ◌∷◌, ◌++◌, Text, lit}
use modular_rust_reverse_pro.Strings.Numbers.{to_string}
use modular_rust_reverse_pro.Metrics.{Snapshot, avg_latency_ms}

-- `format!`: each text is followed by its number and by `ending`.
abbrev format : Text → List (Text × ℕ) → Text
format ending [] = []
format ending ((t, n) ∷ rest) = t ++ (to_string n ++ (ending ++ format ending rest))

unfoldable pub snapshot_prometheus : Snapshot → Text
snapshot_prometheus s = format (lit "\n") (
    (
      lit
          "# HELP proxycache_uptime_seconds Server uptime\n# TYPE proxycache_uptime_seconds gauge\nproxycache_uptime_seconds ",
      s.uptime_secs,
    )
    ∷ (
      lit
          "# HELP proxycache_requests_total Total requests\n# TYPE proxycache_requests_total counter\nproxycache_requests_total ",
      s.counters.requests_total,
    )
    ∷ (lit "# TYPE proxycache_requests_ok counter\nproxycache_requests_ok ", s.counters.requests_ok)
    ∷ (
      lit "# TYPE proxycache_requests_err counter\nproxycache_requests_err ",
      s.counters.requests_err,
    )
    ∷ (
      lit
          "# HELP proxycache_active_connections Current active connections\n# TYPE proxycache_active_connections gauge\nproxycache_active_connections ",
      s.active_connections,
    )
    ∷ (
      lit "# TYPE proxycache_connections_total counter\nproxycache_connections_total ",
      s.counters.connections_total,
    )
    ∷ (lit "# TYPE proxycache_bytes_in counter\nproxycache_bytes_in ", s.counters.bytes_in)
    ∷ (lit "# TYPE proxycache_bytes_out counter\nproxycache_bytes_out ", s.counters.bytes_out)
    ∷ (
      lit "# TYPE proxycache_latency_sum_ms counter\nproxycache_latency_sum_ms ",
      s.counters.latency_sum_ms,
    )
    ∷ (
      lit "# TYPE proxycache_latency_max_ms gauge\nproxycache_latency_max_ms ",
      s.counters.latency_max_ms,
    )
    ∷ (lit "# TYPE proxycache_pool_hits counter\nproxycache_pool_hits ", s.counters.pool_hits)
    ∷ (lit "# TYPE proxycache_pool_misses counter\nproxycache_pool_misses ", s.counters.pool_misses)
    ∷ (
      lit "# TYPE proxycache_circuit_breaker_trips counter\nproxycache_circuit_breaker_trips ",
      s.counters.cb_trips,
    )
    ∷ (
      lit "# TYPE proxycache_circuit_breaker_rejects counter\nproxycache_circuit_breaker_rejects ",
      s.counters.cb_rejects,
    )
    ∷ [])

unfoldable pub snapshot_json : Snapshot → Text
snapshot_json s =
    format [] (
      (lit "{\"uptime_seconds\":", s.uptime_secs)
      ∷ (lit ",\"requests_total\":", s.counters.requests_total)
      ∷ (lit ",\"requests_ok\":", s.counters.requests_ok)
      ∷ (lit ",\"requests_err\":", s.counters.requests_err)
      ∷ (lit ",\"active_connections\":", s.active_connections)
      ∷ (lit ",\"connections_total\":", s.counters.connections_total)
      ∷ (lit ",\"bytes_in\":", s.counters.bytes_in)
      ∷ (lit ",\"bytes_out\":", s.counters.bytes_out)
      ∷ (lit ",\"latency_avg_ms\":", avg_latency_ms s)
      ∷ (lit ",\"latency_max_ms\":", s.counters.latency_max_ms)
      ∷ (lit ",\"pool_hits\":", s.counters.pool_hits)
      ∷ (lit ",\"pool_misses\":", s.counters.pool_misses)
      ∷ (lit ",\"circuit_breaker_trips\":", s.counters.cb_trips)
      ∷ (lit ",\"circuit_breaker_rejects\":", s.counters.cb_rejects)
      ∷ [])
    ++ lit "}"
