-- ===== src/Script/Stdlib/Starting.antt =====
-- `call_init` of src/script/stdlib.rs: what the calls in `on_init` of a script start, or change in the pipeline.
use modular_rust_reverse_pro.Base.{
  Bool, true, false, ◌>>=◌, List, [], ◌∷◌, ◌++◌, Text, lit, ◌==◌, text_eq, if◌then◌else◌, lookup,
  unwrap_or,
}
use modular_rust_reverse_pro.Strings.Numbers.{parse_u64}
use modular_rust_reverse_pro.Config.{Srv}
use modular_rust_reverse_pro.Modules.Pipeline.{Pipeline, override_all, set_raw_handler}
use modular_rust_reverse_pro.Modules.Register.{
  Thread, health_checks, admin_interface, RawTcp, raw_overrides,
}
use modular_rust_reverse_pro.Script.Runtime.{Settings}
use modular_rust_reverse_pro.Script.Loader.{Init}
use modular_rust_reverse_pro.Script.Loader.Names.{AddsNone, Keeps, override_all-Keeps}
use modular_rust_reverse_pro.Script.Stdlib.Arguments.{arg, number_arg}
use modular_rust_reverse_pro.Script.Stdlib.Balancing.{HealthMap, std_active_health_start}

-- The map of the health checks, and the threads that were started.
pub record Begun : Type 0 where
  pub health_map : HealthMap
  pub threads : List Thread

module _ (server : Srv) (binds : Text → Bool) where
  -- The struct `ScriptRawTcp` has the fields and the method of `RawTcp`.
  unfoldable pub std_raw_tcp : Settings → RawTcp
  std_raw_tcp config = record {
    backend = unwrap_or (lookup (lit "backend_addr") config) server.backend_addr;
    buf = unwrap_or (lookup (lit "buffer_size") config >>= parse_u64) server.buffer_size;
    timeout = unwrap_or (lookup (lit "timeout") config >>= parse_u64) server.client_timeout;
  }

  unfoldable pub std_raw_tcp_enable :
      {W : Type 0} → Settings → Pipeline W RawTcp → Pipeline W RawTcp
  unfolding std_raw_tcp
  std_raw_tcp_enable config p = set_raw_handler (std_raw_tcp config) (override_all raw_overrides p)

  unfoldable pub start_health_checks : List Text → Settings → Begun → Begun
  start_health_checks args config i = record {
    health_map = std_active_health_start config server.backend_addr i.health_map;
    threads = i.threads ++ health_checks (number_arg args 0 10) (number_arg args 1 3) ∷ [];
  }

  unfoldable pub std_admin_api_start : List Text → Begun → Begun
  std_admin_api_start args i =
      let listen = unwrap_or (arg args 0) (lit "127.0.0.1:9090") in
      if binds listen
      then record i {
        threads = i.threads ++ admin_interface listen (unwrap_or (arg args 1) []) ∷ [];
      }
      else i

  unfoldable pub call_init : {W : Type 0} → Init W RawTcp Begun
  unfolding std_raw_tcp_enable start_health_checks std_admin_api_start
  call_init func args config (p, i) =
      if func == lit "active_health"
      then (p, start_health_checks args config i)
      else if func == lit "admin_api"
      then (p, std_admin_api_start args i)
      else if func == lit "raw_tcp"
      then (std_raw_tcp_enable config p, i)
      else (p, i)

  enable-Keeps :
      {W : Type 0} (config : Settings) (p : Pipeline W RawTcp)
      → Keeps p (std_raw_tcp_enable config p)
  unfolding std_raw_tcp_enable set_raw_handler
  enable-Keeps config p = override_all-Keeps raw_overrides p

  if-Keeps :
      {W : Type 0} (b : Bool) (p : Pipeline W RawTcp) (x y : Pipeline W RawTcp × Begun)
      → Keeps p x.0
      → Keeps p y.0
      → Keeps p (if b then x else y).0
  if-Keeps true p x y h k = h
  if-Keeps false p x y h k = k

  -- Whatever is called, no module is added.
  pub call_init-AddsNone : {W : Type 0} → AddsNone (call_init {W = W})
  unfolding call_init
  call_init-AddsNone func args config (p, i) =
      if-Keeps (func == lit "active_health") p _ _ (λ u. u, λ n h. h)
        (if-Keeps (func == lit "admin_api") p _ _ (λ u. u, λ n h. h)
          (if-Keeps (func == lit "raw_tcp") p _ _ (enable-Keeps config p) (λ u. u, λ n h. h)))
