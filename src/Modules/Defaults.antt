-- ===== src/Modules/Defaults.antt =====
-- `default_config` of each module of src/modules, and `collect_defaults` of src/modules/mod.rs. The keys that are inserted are
-- distinct, so that a table is the list of them.
use modular_rust_reverse_pro.Base.{true, false, [], ◌∷◌, Text, lit, HashMap, pos}
use modular_rust_reverse_pro.Toml.{Toml, Builder}

module _ {t : Toml} (b : Builder t) where
  open b use {boolean, integer, string, array, table}

  unfoldable pub active_health : HashMap Text t.Value
  active_health =
      (lit "enabled", boolean false)
      ∷ (lit "interval", integer (pos 10))
      ∷ (lit "timeout", integer (pos 3))
      ∷ []

  unfoldable pub admin_api : HashMap Text t.Value
  admin_api =
      (lit "enabled", boolean true)
      ∷ (lit "listen_addr", string (lit "127.0.0.1:9090"))
      ∷ (lit "api_key", string (lit ""))
      ∷ []

  unfoldable pub cache : HashMap Text t.Value
  cache =
      (lit "enabled", boolean false)
      ∷ (lit "ttl_seconds", integer (pos 300))
      ∷ (lit "max_size", integer (pos 100))
      ∷ (lit "warm_urls", array [])
      ∷ []

  unfoldable pub circuit_breaker : HashMap Text t.Value
  circuit_breaker =
      (lit "enabled", boolean false)
      ∷ (lit "failure_threshold", integer (pos 5))
      ∷ (lit "recovery_timeout", integer (pos 30))
      ∷ []

  unfoldable pub compression : HashMap Text t.Value
  compression = (lit "enabled", boolean false) ∷ (lit "min_size", integer (pos 256)) ∷ []

  unfoldable pub health_check : HashMap Text t.Value
  health_check = (lit "enabled", boolean true) ∷ (lit "endpoint", string (lit "/health")) ∷ []

  unfoldable pub load_balancer : HashMap Text t.Value
  load_balancer = (lit "enabled", boolean false) ∷ (lit "backends", array []) ∷ []

  unfoldable pub metrics_exporter : HashMap Text t.Value
  metrics_exporter = (lit "enabled", boolean false) ∷ (lit "endpoint", string (lit "/metrics")) ∷ []

  unfoldable pub proxy_core : HashMap Text t.Value
  proxy_core = (lit "enabled", boolean true) ∷ []

  unfoldable pub rate_limiter : HashMap Text t.Value
  rate_limiter =
      (lit "enabled", boolean false)
      ∷ (lit "requests_per_second", integer (pos 10))
      ∷ (lit "burst", integer (pos 20))
      ∷ []

  unfoldable pub raw_tcp : HashMap Text t.Value
  raw_tcp = (lit "enabled", boolean false) ∷ []

  unfoldable pub request_id : HashMap Text t.Value
  request_id = (lit "enabled", boolean false) ∷ []

  unfoldable pub url_rewriter : HashMap Text t.Value
  url_rewriter = (lit "enabled", boolean false) ∷ []

  unfoldable pub collect_defaults : HashMap Text t.Value
  unfolding active_health admin_api cache circuit_breaker compression health_check load_balancer
      metrics_exporter proxy_core rate_limiter raw_tcp request_id url_rewriter
  collect_defaults =
      (lit "active_health", table active_health)
      ∷ (lit "admin_api", table admin_api)
      ∷ (lit "cache", table cache)
      ∷ (lit "circuit_breaker", table circuit_breaker)
      ∷ (lit "compression", table compression)
      ∷ (lit "health_check", table health_check)
      ∷ (lit "load_balancer", table load_balancer)
      ∷ (lit "metrics_exporter", table metrics_exporter)
      ∷ (lit "proxy_core", table proxy_core)
      ∷ (lit "rate_limiter", table rate_limiter)
      ∷ (lit "raw_tcp", table raw_tcp)
      ∷ (lit "request_id", table request_id)
      ∷ (lit "url_rewriter", table url_rewriter)
      ∷ []
