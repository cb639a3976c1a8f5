-- ===== src/Tests/Registering.antt =====
-- Registration with a small configuration: the module that asks the backend, the cache and the balancer.
use modular_rust_reverse_pro.Base.{
  ℕ, ◌≡◌, refl, true, false, none, some, is_some, [], ◌∷◌, Text, lit, text_eq, text_beq, lookup,
  nat_eq,
}
use modular_rust_reverse_pro.Tests.Formats.{
  values, builder, Value, boolean, of_list, get, as_bool, to_list,
}
use modular_rust_reverse_pro.Tests.Formats
use modular_rust_reverse_pro.Sync.{unlocked}
use modular_rust_reverse_pro.Strings.Utf8.{into_bytes}
use modular_rust_reverse_pro.Context
use modular_rust_reverse_pro.Config.{default}
use modular_rust_reverse_pro.Metrics.{Moment, zeroed}
use modular_rust_reverse_pro.Pool
use modular_rust_reverse_pro.Pool.{would_block}
use modular_rust_reverse_pro.Http.Reader.{arrived}
use modular_rust_reverse_pro.Http.Request.{HttpRequest}
use modular_rust_reverse_pro.Modules.Helpers.{Modules, is_enabled, config_bool, config_value}
use modular_rust_reverse_pro.Modules.UrlRewriter.{load_rules}
use modular_rust_reverse_pro.Modules.RateLimiter.Tokens.{exact}
use modular_rust_reverse_pro.Modules.CircuitBreaker
use modular_rust_reverse_pro.Modules.Cache
use modular_rust_reverse_pro.Modules.Pipeline.{Turn, module_names}
use modular_rust_reverse_pro.Modules.Instances.{Host, Statics, World}
use modular_rust_reverse_pro.Modules.Register.{enabled}
use modular_rust_reverse_pro.Modules.Register.Order.{
  started, loaded, register_all_order, register_all-Counts,
}
use modular_rust_reverse_pro.Server.Http1.{ClientStream, handle_h1}
use modular_rust_reverse_pro.Server.Http1.Counting.{Counts}

abbrev pub host : Host
host = record {
  toml = values;
  float = exact;
  Addr = ℕ;
  Stream = ℕ;
  addr_eq = nat_eq;
  net = record {
    parse_addr = λ t. some 80;
    probe = λ s. would_block true;
    connect = λ a. some 1;
    write = λ s out. true;
    events = λ s out. arrived (into_bytes (lit "HTTP/1.1 204 No Content\r\n\r\n")) ∷ [];
  };
  gzip = λ b. some b;
  binds = λ a. false;
  Scripts = ℕ;
}

abbrev pub statics : Statics host
statics = record {
  health = record { table = none; poisoned = false };
  id_counter = 0;
  limiter = record { rps = 0; burst = 0; buckets = unlocked [] };
  breaker = CircuitBreaker.create 5 30 0;
  cache = Cache.create 300 100;
  balancer = record { backends = []; idx = 0 };
  pool = Pool.new;
  scripts = 0;
}

abbrev pub at : Moment
at = record { now = 1_000; micros = 1; active = 0; started = none }

abbrev off : Text → Text × Value
off name = (name, Formats.table (of_list ((lit "enabled", boolean false) ∷ [])))

abbrev modules : Modules values
modules =
    off (lit "request_id")
    ∷ off (lit "rate_limiter")
    ∷ off (lit "circuit_breaker")
    ∷ off (lit "metrics_exporter")
    ∷ off (lit "raw_tcp")
    ∷ off (lit "compression")
    ∷ []

abbrev client : ClientStream
client = record {
  is_plain = true;
  peer_ip = some (lit "10.0.0.1");
  tls_version = none;
  events = arrived (into_bytes (lit "GET / HTTP/1.1\r\n\r\n")) ∷ [];
}

abbrev request : HttpRequest
request = record {
  method = lit "GET";
  path = lit "/";
  version = lit "HTTP/1.1";
  headers = [];
  body = [];
}

abbrev pub turn : Turn (World host)
turn = record { request = request; context = Context.new 0; world = (zeroed, statics) }

loaded_names :
    loaded host 0 at modules default
    ≡ lit "health_check" ∷ lit "cache" ∷ lit "load_balancer" ∷ lit "proxy_core" ∷ []
unfolding is_enabled config_bool config_value lookup get as_bool of_list to_list text_beq lit
    load_rules
loaded_names = refl

register_all_order_example :
    (module_names (started host 0 at modules default statics) ≡ loaded host 0 at modules default)
    × (is_some (started host 0 at modules default statics).raw
        ≡ enabled host 0 at modules default (lit "raw_tcp"))
register_all_order_example = register_all_order host 0 at modules default statics

register_all-Counts_example : Counts zeroed (
    handle_h1 1_000 2_000 [] none 8192
      (started host 0 at modules default statics)
      client
      zeroed
      statics)
unfolding default
register_all-Counts_example =
    register_all-Counts host 0 at modules default statics 2_000 [] none client zeroed statics
