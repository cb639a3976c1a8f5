-- ===== src/Modules/Register.antt =====
-- `register` of each module of src/modules and `register_all` of src/modules/mod.rs: what the configuration makes of the
-- pipeline and of the state of the modules. `r * 2` of the rate limiter wraps, as it does in a release build.
pub mod Steps
pub mod Growth
pub mod Overriding
pub mod Order
pub mod Answers
pub mod Default
use modular_rust_reverse_pro.Base.{
  ℕ, ◌*◌, ◌%◌, ◌^◌, Bool, true, false, not, ◌&&◌, none, some, List, [], ◌∷◌, ◌++◌, Text, lit,
  if◌then◌else◌, is_empty, retain, is_some,
}
use modular_rust_reverse_pro.Sync.{unlocked}
use modular_rust_reverse_pro.Config.{Srv}
use modular_rust_reverse_pro.Metrics.{Moment}
use modular_rust_reverse_pro.Modules.Helpers.{
  Modules, is_enabled, config_u64, config_usize, config_str, config_vec_str,
}
use modular_rust_reverse_pro.Modules.Pipeline.{
  Pipeline, Module, add, override_all, set_raw_handler, new,
}
use modular_rust_reverse_pro.Modules.ActiveHealth
use modular_rust_reverse_pro.Modules.CircuitBreaker
use modular_rust_reverse_pro.Modules.Cache
use modular_rust_reverse_pro.Modules.UrlRewriter.{load_rules}
use modular_rust_reverse_pro.Modules.Instances.{
  Host, Statics, World, request_id, rate_limiter, circuit_breaker, health_check, metrics_exporter,
  cache, url_rewriter, compression, single, round_robin, proxy_core,
}

-- A thread that registration starts, with what it works on.
pub data Thread : Type 0 where
  health_checks : (interval timeout : ℕ) → Thread
  admin_interface : (listen_addr api_key : Text) → Thread
  cache_warming : (urls : List Text) (backend : Text) → Thread
  cache_eviction : Thread

-- The struct of src/modules/raw_tcp.rs
pub record RawTcp : Type 0 where
  pub backend : Text
  pub buf : ℕ
  pub timeout : ℕ

-- `OVERRIDES`
abbrev pub raw_overrides : List Text
raw_overrides =
    lit "proxy_core"
    ∷ lit "load_balancer"
    ∷ lit "health_check"
    ∷ lit "url_rewriter"
    ∷ lit "cache"
    ∷ []

pub record Setup (v : Host) : Type 0 where
  pub pipeline : Pipeline (World v) RawTcp
  pub statics : Statics v
  pub threads : List Thread

module _ {v : Host} where
  abbrev pub add_module : Module (World v) → Setup v → Setup v
  add_module m s = record s { pipeline = add m s.pipeline }

  abbrev pub spawn : Thread → Setup v → Setup v
  spawn thread s = record s { threads = s.threads ++ thread ∷ [] }

-- The registration at the time `begin`, of modules that serve a request at the moment `at`.
module _ (v : Host) (begin : ℕ) (at : Moment) (c : Modules v.toml) (server : Srv) where
  abbrev pub enabled : Text → Bool
  enabled m = is_enabled v.toml c m

  unfoldable pub register_active_health : Setup v → Setup v
  register_active_health s =
      let interval = config_u64 v.toml c (lit "active_health") (lit "interval") 10 in
      let timeout = config_u64 v.toml c (lit "active_health") (lit "timeout") 3 in
      let backends = config_vec_str v.toml c (lit "load_balancer") (lit "backends") in
      let valid =
        retain (λ a. is_some (v.net.parse_addr a))
          (if is_empty backends then server.backend_addr ∷ [] else backends) in
      let health =
        ActiveHealth.register (λ a. is_some (v.net.parse_addr a)) backends server.backend_addr
          s.statics.health in
      if enabled (lit "active_health") && not (is_empty valid)
      then spawn (health_checks interval timeout)
          (record s { statics = record s.statics { health = health } })
      else s

  unfoldable pub register_request_id : Setup v → Setup v
  register_request_id s = if enabled (lit "request_id") then add_module (request_id v at) s else s

  unfoldable pub register_rate_limiter : Setup v → Setup v
  register_rate_limiter s =
      let r = config_usize v.toml c (lit "rate_limiter") (lit "requests_per_second") 10 in
      let b = config_usize v.toml c (lit "rate_limiter") (lit "burst") (r * 2 % 2 ^ 64) in
      if enabled (lit "rate_limiter")
      then add_module (rate_limiter v at) (record s {
        statics = record s.statics {
          limiter = record { rps = r; burst = b; buckets = unlocked [] };
        };
      })
      else s

  unfoldable pub register_circuit_breaker : Setup v → Setup v
  register_circuit_breaker s =
      let threshold = config_u64 v.toml c (lit "circuit_breaker") (lit "failure_threshold") 5 in
      let recovery = config_u64 v.toml c (lit "circuit_breaker") (lit "recovery_timeout") 30 in
      if enabled (lit "circuit_breaker")
      then add_module (circuit_breaker v at) (record s {
        statics = record s.statics { breaker = CircuitBreaker.create threshold recovery begin };
      })
      else s

  unfoldable pub register_health_check : Setup v → Setup v
  register_health_check s =
      let e = config_str v.toml c (lit "health_check") (lit "endpoint") (lit "/health") in
      if enabled (lit "health_check") then add_module (health_check v at e) s else s

  unfoldable pub register_metrics_exporter : Setup v → Setup v
  register_metrics_exporter s =
      let ep = config_str v.toml c (lit "metrics_exporter") (lit "endpoint") (lit "/metrics") in
      if enabled (lit "metrics_exporter") then add_module (metrics_exporter v at ep) s else s

  unfoldable pub register_admin_api : Setup v → Setup v
  register_admin_api s =
      let addr = config_str v.toml c (lit "admin_api") (lit "listen_addr") (lit "127.0.0.1:9090") in
      let api_key = config_str v.toml c (lit "admin_api") (lit "api_key") (lit "") in
      if enabled (lit "admin_api") && v.binds addr
      then spawn (admin_interface addr api_key) s
      else s

  unfoldable pub register_cache : Setup v → Setup v
  register_cache s =
      let ttl = config_u64 v.toml c (lit "cache") (lit "ttl_seconds") 300 in
      let max = config_usize v.toml c (lit "cache") (lit "max_size") 100 in
      let urls = config_vec_str v.toml c (lit "cache") (lit "warm_urls") in
      let warming = if is_empty urls then s else spawn (cache_warming urls server.backend_addr) s in
      if enabled (lit "cache")
      then add_module (cache v at) (
          spawn cache_eviction
            (record warming { statics = record s.statics { cache = Cache.create ttl max } }))
      else s

  unfoldable pub register_url_rewriter : Setup v → Setup v
  register_url_rewriter s =
      let rules = load_rules v.toml c in
      if enabled (lit "url_rewriter") && not (is_empty rules)
      then add_module (url_rewriter v at rules) s
      else s

  unfoldable pub register_compression : Setup v → Setup v
  register_compression s =
      let min = config_u64 v.toml c (lit "compression") (lit "min_size") 256 in
      if enabled (lit "compression") then add_module (compression v at min) s else s

  -- The balancer is left out for no configuration: without backends it is the single one.
  unfoldable pub register_load_balancer : Setup v → Setup v
  register_load_balancer s =
      let bs = config_vec_str v.toml c (lit "load_balancer") (lit "backends") in
      if not (enabled (lit "load_balancer"))
      then add_module (single v at server.backend_addr) s
      else if is_empty bs
      then add_module (single v at server.backend_addr) s
      else add_module (round_robin v at)
          (record s { statics = record s.statics { balancer = record { backends = bs; idx = 0 } } })

  unfoldable pub register_proxy_core : Setup v → Setup v
  register_proxy_core s =
      if enabled (lit "proxy_core") then add_module (proxy_core v at server.buffer_size) s else s

  unfoldable pub register_raw_tcp : Setup v → Setup v
  register_raw_tcp s =
      let handler : RawTcp = record {
        backend = config_str v.toml c (lit "raw_tcp") (lit "backend_addr") server.backend_addr;
        buf = config_usize v.toml c (lit "raw_tcp") (lit "buffer_size") server.buffer_size;
        timeout = config_u64 v.toml c (lit "raw_tcp") (lit "timeout") server.client_timeout;
      } in
      if enabled (lit "raw_tcp")
      then record s { pipeline = set_raw_handler handler (override_all raw_overrides s.pipeline) }
      else s

  -- The modules that are added to the pipeline, and the two that start threads only.
  unfoldable pub register_modules : Setup v → Setup v
  unfolding register_active_health register_request_id register_rate_limiter
      register_circuit_breaker register_health_check register_metrics_exporter register_admin_api
      register_cache register_url_rewriter register_compression register_load_balancer
      register_proxy_core
  register_modules s = register_proxy_core (
      register_load_balancer (
        register_compression (
          register_url_rewriter (
            register_cache (
              register_admin_api (
                register_metrics_exporter (
                  register_health_check (
                    register_circuit_breaker (
                      register_rate_limiter
                        (register_request_id (register_active_health s)))))))))))

  unfoldable pub register_all : Setup v → Setup v
  unfolding register_modules register_raw_tcp
  register_all s = register_raw_tcp (register_modules s)

  -- What `main` begins with: a new pipeline, and no thread.
  abbrev pub fresh : Statics v → Setup v
  fresh statics = record { pipeline = new server.client_timeout; statics = statics; threads = [] }
