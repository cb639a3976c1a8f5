-- ===== src/Modules/Register/Growth.antt =====
-- What each `register` adds to the pipeline.
use modular_rust_reverse_pro.Base.{
  text_beq, ℕ, ◌≤◌, ◌≡◌, refl, Bool, true, false, not, ◌&&◌, List, [], ◌∷◌, ◌++◌, Text, lit, arith,
  if◌then◌else◌, is_empty, inl, inr, Bool-cases, pos,
}
use modular_rust_reverse_pro.Config.{Srv}
use modular_rust_reverse_pro.Metrics.{Moment}
use modular_rust_reverse_pro.Server.Http1.Counting.{KeepsCounts}
use modular_rust_reverse_pro.Modules.Helpers.{Modules, config_vec_str}
use modular_rust_reverse_pro.Modules.UrlRewriter.{load_rules}
use modular_rust_reverse_pro.Modules.Pipeline.{Module, default_priority}
use modular_rust_reverse_pro.Modules.Instances.{
  Host, World, request_id, rate_limiter, circuit_breaker, health_check, metrics_exporter, cache,
  url_rewriter, compression, single, round_robin, proxy_core,
}
use modular_rust_reverse_pro.Modules.Instances.Counters.{
  request_id-KeepsCounts, rate_limiter-KeepsCounts, circuit_breaker-KeepsCounts,
  health_check-KeepsCounts, metrics_exporter-KeepsCounts, cache-KeepsCounts,
  url_rewriter-KeepsCounts, compression-KeepsCounts, single-KeepsCounts, round_robin-KeepsCounts,
  proxy_core-KeepsCounts,
}
use modular_rust_reverse_pro.Modules.Register.{
  Setup, add_module, enabled, register_active_health, register_request_id, register_rate_limiter,
  register_circuit_breaker, register_health_check, register_metrics_exporter, register_admin_api,
  register_cache, register_url_rewriter, register_compression, register_load_balancer,
  register_proxy_core,
}
use modular_rust_reverse_pro.Modules.Register.Steps.{Built, skip-Built, add-Built}

module _ {v : Host} where
  abbrev pub Grown : List (Text × Bool) → ℕ → Setup v → Type 0
  Grown l k s = Built (λ m. KeepsCounts m) l k s.pipeline

  -- A module is added behind a test.
  pub step-Grown :
      (m : Module (World v)) (b : Bool) (l : List (Text × Bool)) (k n : ℕ) (s s' : Setup v)
      → m.overrides ≡ []
      → default_priority m.name ≡ pos n
      → k ≤ n
      → KeepsCounts m
      → s'.pipeline ≡ s.pipeline
      → Grown l k s
      → Grown (l ++ (m.name, b) ∷ []) n (if b then add_module m s' else s)
  step-Grown m true l k n s s' o d le q e h =
      rw e (add-Built (λ m. KeepsCounts m) m l k n s.pipeline o d le q h)
  step-Grown m false l k n s s' o d le q e h =
      skip-Built (λ m. KeepsCounts m) m.name l k n s.pipeline le h

module _ (v : Host) (begin : ℕ) (at : Moment) (c : Modules v.toml) (server : Srv) where
  pub register_request_id-Grown :
      (l : List (Text × Bool)) (k : ℕ) (s : Setup v)
      → k ≤ 20
      → Grown l k s
      → Grown
          (l ++ (lit "request_id", enabled v begin at c server (lit "request_id")) ∷ [])
          20
          (register_request_id v begin at c server s)
  unfolding register_request_id request_id default_priority text_beq lit
  register_request_id-Grown l k s le h =
      step-Grown (request_id v at) _ l k 20 s _ refl refl le (request_id-KeepsCounts v at) refl h

  pub register_rate_limiter-Grown :
      (l : List (Text × Bool)) (k : ℕ) (s : Setup v)
      → k ≤ 30
      → Grown l k s
      → Grown
          (l ++ (lit "rate_limiter", enabled v begin at c server (lit "rate_limiter")) ∷ [])
          30
          (register_rate_limiter v begin at c server s)
  unfolding register_rate_limiter rate_limiter default_priority text_beq lit
  register_rate_limiter-Grown l k s le h =
      step-Grown (rate_limiter v at) _ l k 30 s _ refl refl le (rate_limiter-KeepsCounts v at) refl
        h

  pub register_circuit_breaker-Grown :
      (l : List (Text × Bool)) (k : ℕ) (s : Setup v)
      → k ≤ 40
      → Grown l k s
      → Grown
          (l ++ (lit "circuit_breaker", enabled v begin at c server (lit "circuit_breaker")) ∷ [])
          40
          (register_circuit_breaker v begin at c server s)
  unfolding register_circuit_breaker circuit_breaker default_priority text_beq lit
  register_circuit_breaker-Grown l k s le h =
      step-Grown (circuit_breaker v at) _ l k 40 s _ refl refl le (circuit_breaker-KeepsCounts v at)
        refl h

  pub register_health_check-Grown :
      (l : List (Text × Bool)) (k : ℕ) (s : Setup v)
      → k ≤ 50
      → Grown l k s
      → Grown
          (l ++ (lit "health_check", enabled v begin at c server (lit "health_check")) ∷ [])
          50
          (register_health_check v begin at c server s)
  unfolding register_health_check health_check default_priority text_beq lit
  register_health_check-Grown l k s le h =
      step-Grown (health_check v at _) _ l k 50 s _ refl refl le (health_check-KeepsCounts v at _)
        refl h

  pub register_metrics_exporter-Grown :
      (l : List (Text × Bool)) (k : ℕ) (s : Setup v)
      → k ≤ 60
      → Grown l k s
      → Grown
          (l ++ (lit "metrics_exporter", enabled v begin at c server (lit "metrics_exporter")) ∷ [])
          60
          (register_metrics_exporter v begin at c server s)
  unfolding register_metrics_exporter metrics_exporter default_priority text_beq lit
  register_metrics_exporter-Grown l k s le h =
      step-Grown (metrics_exporter v at _) _ l k 60 s _ refl refl le
        (metrics_exporter-KeepsCounts v at _) refl h

  pub register_cache-Grown :
      (l : List (Text × Bool)) (k : ℕ) (s : Setup v)
      → k ≤ 80
      → Grown l k s
      → Grown
          (l ++ (lit "cache", enabled v begin at c server (lit "cache")) ∷ [])
          80
          (register_cache v begin at c server s)
  unfolding register_cache cache default_priority text_beq lit
  register_cache-Grown l k s le h =
      step-Grown (cache v at) _ l k 80 s _ refl refl le (cache-KeepsCounts v at) (ground arith) h

  pub register_url_rewriter-Grown :
      (l : List (Text × Bool)) (k : ℕ) (s : Setup v)
      → k ≤ 90
      → Grown l k s
      → Grown
          (l
            ++ (
              lit "url_rewriter",
              enabled v begin at c server (lit "url_rewriter")
                  && not (is_empty (load_rules v.toml c)),
            )
              ∷ [])
          90
          (register_url_rewriter v begin at c server s)
  unfolding register_url_rewriter url_rewriter default_priority text_beq lit
  register_url_rewriter-Grown l k s le h =
      step-Grown (url_rewriter v at _) _ l k 90 s _ refl refl le (url_rewriter-KeepsCounts v at _)
        refl h

  pub register_compression-Grown :
      (l : List (Text × Bool)) (k : ℕ) (s : Setup v)
      → k ≤ 100
      → Grown l k s
      → Grown
          (l ++ (lit "compression", enabled v begin at c server (lit "compression")) ∷ [])
          100
          (register_compression v begin at c server s)
  unfolding register_compression compression default_priority text_beq lit
  register_compression-Grown l k s le h =
      step-Grown (compression v at _) _ l k 100 s _ refl refl le (compression-KeepsCounts v at _)
        refl h

  pub register_proxy_core-Grown :
      (l : List (Text × Bool)) (k : ℕ) (s : Setup v)
      → k ≤ 120
      → Grown l k s
      → Grown
          (l ++ (lit "proxy_core", enabled v begin at c server (lit "proxy_core")) ∷ [])
          120
          (register_proxy_core v begin at c server s)
  unfolding register_proxy_core proxy_core default_priority text_beq lit
  register_proxy_core-Grown l k s le h =
      step-Grown (proxy_core v at _) _ l k 120 s _ refl refl le (proxy_core-KeepsCounts v at _) refl
        h

  -- Whatever the configuration says, one balancer is added.
  pub register_load_balancer-Grown :
      (l : List (Text × Bool)) (k : ℕ) (s : Setup v)
      → k ≤ 110
      → Grown l k s
      → Grown
          (l ++ (lit "load_balancer", true) ∷ [])
          110
          (register_load_balancer v begin at c server s)
  unfolding register_load_balancer single round_robin default_priority text_beq lit
  register_load_balancer-Grown l k s le h =
      elim (Bool-cases (enabled v begin at c server (lit "load_balancer"))) [
        | inl on ↦
            elim (Bool-cases
              (is_empty (config_vec_str v.toml c (lit "load_balancer") (lit "backends")))) [
                | inl bare ↦
                    rw (on, bare, register_load_balancer)
                      (step-Grown (single v at server.backend_addr) true l k 110 s s refl refl le
                        (single-KeepsCounts v at server.backend_addr) refl h)
                | inr some_backend ↦
                    rw (on, some_backend, register_load_balancer)
                      (step-Grown (round_robin v at) true l k 110 s
                        (record s {
                          statics = record s.statics {
                            balancer = record {
                              backends =
                                  config_vec_str v.toml c (lit "load_balancer") (lit "backends");
                              idx = 0;
                            };
                          };
                        })
                        refl refl le (round_robin-KeepsCounts v at) refl h)
              ]
        | inr off ↦
            rw (off, register_load_balancer)
              (step-Grown (single v at server.backend_addr) true l k 110 s s refl refl le
                (single-KeepsCounts v at server.backend_addr) refl h)
      ]

  -- The two that start threads leave the pipeline alone.
  pub register_active_health-Grown :
      (l : List (Text × Bool)) (k : ℕ) (s : Setup v)
      → Grown l k s
      → Grown l k (register_active_health v begin at c server s)
  unfolding register_active_health
  register_active_health-Grown l k s h = ground arith

  pub register_admin_api-Grown :
      (l : List (Text × Bool)) (k : ℕ) (s : Setup v)
      → Grown l k s
      → Grown l k (register_admin_api v begin at c server s)
  unfolding register_admin_api
  register_admin_api-Grown l k s h = ground arith
