-- ===== src/Modules/Instances.antt =====
-- The `impl Module` blocks of src/modules: the built-in modules as modules of a pipeline, over the state that they keep
-- between requests. All that comes from outside is gathered in `Host`; the clock stands still during a request.
pub mod Counters
use modular_rust_reverse_pro.Base.{
  ℕ, Bool, Option, none, some, List, [], ◌∷◌, Text, lit, if◌then◌else◌, Eq,
}
use modular_rust_reverse_pro.Toml.{Toml}
use modular_rust_reverse_pro.Context.{Context}
use modular_rust_reverse_pro.Context
use modular_rust_reverse_pro.Strings.Utf8.{Bytes}
use modular_rust_reverse_pro.Metrics.{Metrics, Moment, snapshot, inc_pool_hits, inc_pool_misses}
use modular_rust_reverse_pro.Metrics.Printing.{snapshot_prometheus}
use modular_rust_reverse_pro.Http.Request.{HttpRequest}
use modular_rust_reverse_pro.Http.Response.{HttpResponse}
use modular_rust_reverse_pro.Pool.{ConnPool}
use modular_rust_reverse_pro.Pool
use modular_rust_reverse_pro.Modules.Pipeline.{Module, Turn, Answer}
use modular_rust_reverse_pro.Modules.ActiveHealth.{Health, is_healthy}
use modular_rust_reverse_pro.Modules.RequestId
use modular_rust_reverse_pro.Modules.RateLimiter.{Float, RateLimit}
use modular_rust_reverse_pro.Modules.RateLimiter
use modular_rust_reverse_pro.Modules.CircuitBreaker.{CircuitBreaker}
use modular_rust_reverse_pro.Modules.CircuitBreaker
use modular_rust_reverse_pro.Modules.HealthCheck.{handle_health, handle_metrics}
use modular_rust_reverse_pro.Modules.Cache.{Cache}
use modular_rust_reverse_pro.Modules.Cache
use modular_rust_reverse_pro.Modules.UrlRewriter
use modular_rust_reverse_pro.Modules.Compression
use modular_rust_reverse_pro.Modules.LoadBalancer.{RoundRobin, handle_single}
use modular_rust_reverse_pro.Modules.LoadBalancer
use modular_rust_reverse_pro.Modules.ProxyCore.{Network}
use modular_rust_reverse_pro.Modules.ProxyCore

-- What is not the program's own: the values of the crate `toml`, the arithmetic of f64, the network with its addresses
-- and streams, the encoder, and whether the admin interface can listen at an address. `Scripts` is the state of the scripts.
pub record Host : Type 1 where
  pub toml : Toml
  pub float : Float
  pub Addr : Type 0
  pub Stream : Type 0
  pub addr_eq : Eq Addr
  pub net : Network Addr Stream
  pub gzip : Bytes → Option Bytes
  pub binds : Text → Bool
  pub Scripts : Type 0

-- What the modules keep. The counters of the breaker stand with the metrics, too, and those count.
pub record Statics (v : Host) : Type 0 where
  pub health : Health
  pub id_counter : ℕ
  pub limiter : RateLimit v.float
  pub breaker : CircuitBreaker
  pub cache : Cache
  pub balancer : RoundRobin
  pub pool : ConnPool v.Addr v.Stream
  pub scripts : v.Scripts

module _ (v : Host) where
  abbrev pub World : Type 0
  World = Metrics × Statics v

  -- A module that leaves the response alone.
  abbrev quiet : HttpRequest → Answer World → Answer World
  quiet q a = a

  -- The breaker with the counters of src/metrics.rs, and the world with those of the breaker.
  unfoldable pub synced : World → CircuitBreaker
  synced w = record w.1.breaker { cb_trips = w.0.cb_trips; cb_rejects = w.0.cb_rejects }

  unfoldable pub with_breaker : CircuitBreaker → World → World
  with_breaker b w =
      (record w.0 { cb_trips = b.cb_trips; cb_rejects = b.cb_rejects }, record w.1 { breaker = b })

  module _ (at : Moment) where
    unfoldable pub request_id : Module World
    request_id = record {
      name = lit "request_id";
      overrides = [];
      handle = λ t.
          let (n, q, c) = RequestId.handle at.micros t.world.1.id_counter t.request t.context in
          (
            record t {
              request = q;
              context = c;
              world = (t.world.0, record t.world.1 { id_counter = n });
            },
            none,
          );
      on_response = λ q a. record a { response = RequestId.on_response a.response a.context };
    }

    unfoldable pub rate_limiter : Module World
    rate_limiter = record {
      name = lit "rate_limiter";
      overrides = [];
      handle = λ t.
          let (l, resp) = RateLimiter.handle v.float at.now t.context t.world.1.limiter in
          (record t { world = (t.world.0, record t.world.1 { limiter = l }) }, resp);
      on_response = quiet;
    }

    unfoldable pub circuit_breaker : Module World
    unfolding synced with_breaker
    circuit_breaker = record {
      name = lit "circuit_breaker";
      overrides = [];
      handle = λ t.
          let (b, resp) = CircuitBreaker.handle at.now (synced t.world) in
          (record t { world = with_breaker b t.world }, resp);
      on_response = λ q a. record a {
        world =
            with_breaker (CircuitBreaker.on_response at.now a.response.status_code (synced a.world))
              a.world;
      };
    }

    unfoldable pub health_check : Text → Module World
    health_check endpoint = record {
      name = lit "health_check";
      overrides = [];
      handle = λ t. (t, handle_health endpoint t.request);
      on_response = quiet;
    }

    unfoldable pub metrics_exporter : Text → Module World
    metrics_exporter endpoint = record {
      name = lit "metrics_exporter";
      overrides = [];
      handle = λ t.
          let body = snapshot_prometheus (snapshot t.world.0 at.active at.now at.started) in
          (t, handle_metrics body endpoint t.request);
      on_response = quiet;
    }

    unfoldable pub cache : Module World
    cache = record {
      name = lit "cache";
      overrides = [];
      handle = λ t.
          let (c, resp) = Cache.handle at.now t.request t.world.1.cache in
          (record t { world = (t.world.0, record t.world.1 { cache = c }) }, resp);
      on_response = λ q a.
          let c = Cache.on_response at.now q a.response a.world.1.cache in
          record a { world = (a.world.0, record a.world.1 { cache = c }) };
    }

    unfoldable pub url_rewriter : List (Text × Text) → Module World
    url_rewriter rules = record {
      name = lit "url_rewriter";
      overrides = [];
      handle = λ t.
          let (q, resp) = UrlRewriter.handle rules t.request in (record t { request = q }, resp);
      on_response = quiet;
    }

    unfoldable pub compression : ℕ → Module World
    compression min_size = record {
      name = lit "compression";
      overrides = [];
      handle = λ t. (record t { context = Compression.handle t.request t.context }, none);
      on_response = λ q a. record a {
        response = Compression.on_response v.gzip min_size a.response a.context;
      };
    }

    unfoldable pub single : Text → Module World
    single addr = record {
      name = lit "load_balancer";
      overrides = [];
      handle =
          λ t. let (c, resp) = handle_single addr t.context in (record t { context = c }, resp);
      on_response = quiet;
    }

    -- The backends stand with the index in the state.
    unfoldable pub round_robin : Module World
    round_robin = record {
      name = lit "load_balancer";
      overrides = [];
      handle = λ t.
          let (rr, c, resp) =
            LoadBalancer.handle (is_healthy t.world.1.health) t.context t.world.1.balancer in
          (record t { context = c; world = (t.world.0, record t.world.1 { balancer = rr }) }, resp);
      on_response = quiet;
    }

    -- `pool.get` counts a hit or a miss, once the address is known.
    unfoldable pub count_get : Context → ConnPool v.Addr v.Stream → Metrics → Metrics
    count_get ctx pool m = elim (Context.get (lit "_backend_addr") ctx) [
      | none ↦ m
      | some text ↦ elim (v.net.parse_addr text) [
        | none ↦ m
        | some addr ↦
            let (pool', stream, hit) =
              Pool.get ⦃e = v.addr_eq⦄ v.net.probe at.now (v.net.connect addr) addr pool in
            if hit then inc_pool_hits m else inc_pool_misses m
      ]
    ]

    unfoldable pub proxy_core : ℕ → Module World
    unfolding count_get
    proxy_core buf = record {
      name = lit "proxy_core";
      overrides = [];
      handle = λ t.
          let w = t.world in
          let (pool, resp) =
            ProxyCore.handle ⦃e = v.addr_eq⦄ v.net at.now buf t.request t.context w.1.pool in
          (
            record t { world = (count_get t.context w.1.pool w.0, record w.1 { pool = pool }) },
            resp,
          );
      on_response = quiet;
    }
