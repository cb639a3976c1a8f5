-- ===== src/Script/Stdlib/Calls.antt =====
-- `call_request`, `call_response` and the forwarding functions of src/script/stdlib.rs, as an instance of the
-- interface that src/script/runtime.rs uses. All that comes from outside is an argument: the network, the encoder,
-- the arithmetic of f64, and the time.
use modular_rust_reverse_pro.Base.{
  ℕ, Bool, Option, none, some, List, [], ◌∷◌, Text, lit, ◌==◌, text_eq, if◌then◌else◌, HashMap, Eq,
}
use modular_rust_reverse_pro.Sync.{Mutex}
use modular_rust_reverse_pro.Strings.Utf8.{Bytes}
use modular_rust_reverse_pro.Context.{Context, set}
use modular_rust_reverse_pro.Context
use modular_rust_reverse_pro.Metrics.{Moment, Metrics, snapshot, inc_pool_hits, inc_pool_misses}
use modular_rust_reverse_pro.Metrics.Printing.{snapshot_prometheus}
use modular_rust_reverse_pro.Http.Request.{HttpRequest}
use modular_rust_reverse_pro.Http.Request
use modular_rust_reverse_pro.Http.Response.{HttpResponse, error}
use modular_rust_reverse_pro.Http.Reader.{read_http_message}
use modular_rust_reverse_pro.Pool.{ConnPool}
use modular_rust_reverse_pro.Pool
use modular_rust_reverse_pro.Modules.Pipeline.{Turn, Answer}
use modular_rust_reverse_pro.Modules.RateLimiter.{Float, Bucket}
use modular_rust_reverse_pro.Modules.ProxyCore.{Network, answer_of}
use modular_rust_reverse_pro.Script.Runtime.{StdLib, Settings}
use modular_rust_reverse_pro.Script.Stdlib.Limiting.{std_rate_limit}
use modular_rust_reverse_pro.Script.Stdlib.Caching.{Entries, std_cache_check, std_cache_store}
use modular_rust_reverse_pro.Script.Stdlib.Breaking.{Breaker, std_cb_check, std_cb_record}
use modular_rust_reverse_pro.Script.Stdlib.Messages.{
  std_compress_check, std_compress_apply, std_request_id_inject, std_request_id_propagate,
  std_url_rewrite, std_metrics_prometheus, std_health_response,
}
use modular_rust_reverse_pro.Script.Stdlib.Balancing.{HealthMap, std_load_balance}

-- The statics of src/script/stdlib.rs and the pool; the counters of src/metrics.rs stand with the breaker.
pub record Statics (fl : Float) (A S : Type 0) : Type 0 where
  pub rate_buckets : Mutex (HashMap Text (Bucket fl))
  pub cache : Entries
  pub breaker : Breaker
  pub req_id_counter : ℕ
  pub lb_index : ℕ
  pub health_map : HealthMap
  pub pool : ConnPool A S

module _ (fl : Float) (parse_f64 : Text → Option fl.F) {A S : Type 0} ⦃e : Eq A⦄ (net : Network A S)
    (gzip : Bytes → Option Bytes) (at : Moment) where
  -- The bytes of the request are written and the answer is read, over the stream `s`.
  unfoldable pub forward_over : HttpRequest → A → S → ConnPool A S → ConnPool A S × HttpResponse
  forward_over r addr s pool =
      let out = Request.to_bytes r in
      let (resp, keep) = answer_of (read_http_message (net.events s out) 8_192) in
      if net.write s out
      then (if keep then Pool.put at.now addr s pool else pool, resp)
      else (pool, error 502 (lit "Backend write failed"))

  -- `pool.get` counts its hits and misses.
  count_get : Bool → Metrics → Metrics
  unfolding inc_pool_hits inc_pool_misses
  count_get hit m = if hit then inc_pool_hits m else inc_pool_misses m

  unfoldable pub std_proxy_forward :
      HttpRequest → Context → ConnPool A S → Metrics → ConnPool A S × Metrics × Option HttpResponse
  unfolding forward_over count_get
  std_proxy_forward r ctx pool m = elim (Context.get (lit "_backend_addr") ctx) [
    | none ↦ (pool, m, none)
    | some text ↦ elim (net.parse_addr text) [
      | none ↦ (pool, m, some (error 502 (lit "Invalid backend address")))
      | some addr ↦
          let (pool', stream, hit) = Pool.get net.probe at.now (net.connect addr) addr pool in
          elim stream [
            | none ↦ (pool', count_get hit m, some (error 502 (lit "Backend unavailable")))
            | some s ↦
                let (pool'', resp) = forward_over r addr s pool' in
                (pool'', count_get hit m, some resp)
          ]
    ]
  ]

  unfoldable pub set_backend : List Text → Context → Context
  set_backend [] ctx = ctx
  set_backend (addr ∷ more) ctx = set (lit "_backend_addr") addr ctx

  unfoldable pub call_request :
      Text
      → List Text
      → Settings
      → Turn (Statics fl A S)
      → Turn (Statics fl A S) × Option HttpResponse
  unfolding std_proxy_forward set_backend
  call_request func args config t =
      let w = t.world in
      if func == lit "rate_limit"
      then (let (buckets, resp) =
            std_rate_limit fl parse_f64 at.now args t.context w.rate_buckets in
          (record t { world = record w { rate_buckets = buckets } }, resp))
      else if func == lit "cache.check"
      then (let (cache', resp) = std_cache_check at.now t.request w.cache in
          (record t { world = record w { cache = cache' } }, resp))
      else if func == lit "circuit_breaker.check"
      then (let (b, resp) = std_cb_check at.now args w.breaker in
          (record t { world = record w { breaker = b } }, resp))
      else if func == lit "compress.check"
      then (record t { context = std_compress_check t.request t.context }, none)
      else if func == lit "request_id.inject"
      then (let (n, req, ctx) =
            std_request_id_inject at.micros w.req_id_counter t.request t.context in
          (
            record t { request = req; context = ctx; world = record w { req_id_counter = n } },
            none,
          ))
      else if func == lit "url_rewrite"
      then (record t { request = std_url_rewrite args config t.request }, none)
      else if func == lit "load_balance"
      then (let (n, ctx) = std_load_balance w.health_map args config w.lb_index t.context in
          (record t { context = ctx; world = record w { lb_index = n } }, none))
      else if func == lit "set_backend"
      then (record t { context = set_backend args t.context }, none)
      else if func == lit "proxy.forward"
      then (let (pool', m, resp) = std_proxy_forward t.request t.context w.pool w.breaker.metrics in
          (
            record t {
              world = record w { pool = pool'; breaker = record w.breaker { metrics = m } };
            },
            resp,
          ))
      else if func == lit "metrics.prometheus"
      then (
        t,
        std_metrics_prometheus
            (snapshot_prometheus (snapshot w.breaker.metrics at.active at.now at.started)),
      )
      else if func == lit "health_response"
      then (t, std_health_response args)
      else (t, none)

  unfoldable pub call_response :
      Text → List Text → Settings → HttpRequest → Answer (Statics fl A S) → Answer (Statics fl A S)
  call_response func args config req a =
      let w = a.world in
      if func == lit "cache.store"
      then record a {
        world = record w { cache = std_cache_store at.now args req a.response w.cache };
      }
      else if func == lit "circuit_breaker.record"
      then record a {
        world = record w { breaker = std_cb_record at.now args a.response w.breaker };
      }
      else if func == lit "compress.apply"
      then record a { response = std_compress_apply gzip args a.response a.context }
      else if func == lit "request_id.propagate"
      then record a { response = std_request_id_propagate a.response a.context }
      else a

  -- The functions as scripts reach them.
  unfoldable pub std_lib : StdLib (Statics fl A S)
  unfolding call_request call_response
  std_lib = record { call_request = call_request; call_response = call_response }
