-- ===== src/Modules/Instances/Counters.antt =====
-- The built-in modules leave the counters of answers to the server.
use modular_rust_reverse_pro.Base.{ℕ, refl, List, Text, lit, Option-cases, inl, inr, Bool-cases}
use modular_rust_reverse_pro.Metrics.{Metrics, Moment, inc_pool_hits, inc_pool_misses}
use modular_rust_reverse_pro.Context.{Context}
use modular_rust_reverse_pro.Context
use modular_rust_reverse_pro.Pool.{ConnPool}
use modular_rust_reverse_pro.Pool
use modular_rust_reverse_pro.Server.Http1.Counting.{SameCounts, KeepsCounts}
use modular_rust_reverse_pro.Modules.Instances.{
  Host, count_get, request_id, rate_limiter, circuit_breaker, health_check, metrics_exporter, cache,
  url_rewriter, compression, single, round_robin, proxy_core,
}

module _ (v : Host) (at : Moment) where
  pub request_id-KeepsCounts : KeepsCounts (request_id v at)
  unfolding request_id
  request_id-KeepsCounts = record { on_handle = λ t. (refl, refl); on_answer = λ q a. (refl, refl) }

  pub rate_limiter-KeepsCounts : KeepsCounts (rate_limiter v at)
  unfolding rate_limiter
  rate_limiter-KeepsCounts = record {
    on_handle = λ t. (refl, refl);
    on_answer = λ q a. (refl, refl);
  }

  pub circuit_breaker-KeepsCounts : KeepsCounts (circuit_breaker v at)
  unfolding circuit_breaker
  circuit_breaker-KeepsCounts = record {
    on_handle = λ t. (refl, refl);
    on_answer = λ q a. (refl, refl);
  }

  pub health_check-KeepsCounts : (endpoint : Text) → KeepsCounts (health_check v at endpoint)
  unfolding health_check
  health_check-KeepsCounts endpoint = record {
    on_handle = λ t. (refl, refl);
    on_answer = λ q a. (refl, refl);
  }

  pub metrics_exporter-KeepsCounts :
      (endpoint : Text) → KeepsCounts (metrics_exporter v at endpoint)
  unfolding metrics_exporter
  metrics_exporter-KeepsCounts endpoint = record {
    on_handle = λ t. (refl, refl);
    on_answer = λ q a. (refl, refl);
  }

  pub cache-KeepsCounts : KeepsCounts (cache v at)
  unfolding cache
  cache-KeepsCounts = record { on_handle = λ t. (refl, refl); on_answer = λ q a. (refl, refl) }

  pub url_rewriter-KeepsCounts :
      (rules : List (Text × Text)) → KeepsCounts (url_rewriter v at rules)
  unfolding url_rewriter
  url_rewriter-KeepsCounts rules = record {
    on_handle = λ t. (refl, refl);
    on_answer = λ q a. (refl, refl);
  }

  pub compression-KeepsCounts : (min_size : ℕ) → KeepsCounts (compression v at min_size)
  unfolding compression
  compression-KeepsCounts min_size = record {
    on_handle = λ t. (refl, refl);
    on_answer = λ q a. (refl, refl);
  }

  pub single-KeepsCounts : (addr : Text) → KeepsCounts (single v at addr)
  unfolding single
  single-KeepsCounts addr = record {
    on_handle = λ t. (refl, refl);
    on_answer = λ q a. (refl, refl);
  }

  pub round_robin-KeepsCounts : KeepsCounts (round_robin v at)
  unfolding round_robin
  round_robin-KeepsCounts = record {
    on_handle = λ t. (refl, refl);
    on_answer = λ q a. (refl, refl);
  }

  count_get-SameCounts :
      (ctx : Context) (pool : ConnPool v.Addr v.Stream) (m : Metrics)
      → SameCounts m (count_get v at ctx pool m)
  unfolding count_get inc_pool_hits inc_pool_misses
  count_get-SameCounts ctx pool m = elim (Option-cases (Context.get (lit "_backend_addr") ctx)) [
    | inl absent ↦ rw (absent, count_get) (refl, refl)
    | inr (text, e) ↦ elim (Option-cases (v.net.parse_addr text)) [
      | inl wrong ↦ rw (e, wrong, count_get) (refl, refl)
      | inr (addr, e') ↦
          elim (Bool-cases
            ((Pool.get ⦃e = v.addr_eq⦄ v.net.probe at.now (v.net.connect addr) addr pool).2)) [
              | inl hit ↦ rw (e, e', hit, count_get) (refl, refl)
              | inr miss ↦ rw (e, e', miss, count_get) (refl, refl)
            ]
    ]
  ]

  pub proxy_core-KeepsCounts : (buf : ℕ) → KeepsCounts (proxy_core v at buf)
  unfolding proxy_core
  proxy_core-KeepsCounts buf = record {
    on_handle = λ t. count_get-SameCounts t.context t.world.1.pool t.world.0;
    on_answer = λ q a. (refl, refl);
  }
