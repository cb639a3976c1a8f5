-- ===== src/Modules/AdminApi/Printing.antt =====
-- src/modules/admin_api.rs: the bodies that `handle` prints of the state of the program.
pub mod Pages
use modular_rust_reverse_pro.Base.{
  ℕ, ◌-◌, ◌/◌, ◌%◌, ◌≡◌, refl, Bool, true, false, not, ◌&&◌, Option, none, some, ◌>>=◌, List, [],
  ◌∷◌, ◌++◌, Text, lit, if◌then◌else◌, is_empty, ltb, unwrap_or,
}
use mathlib.Core.List.{reverse}
use modular_rust_reverse_pro.Strings.Numbers.{to_string, parse_u16}
use modular_rust_reverse_pro.Strings.Split.{split_once, join}
use modular_rust_reverse_pro.Config.{Srv}
use modular_rust_reverse_pro.Metrics.{Snapshot, avg_latency_ms}
use modular_rust_reverse_pro.Script.Loader.{DirEntry}
use modular_rust_reverse_pro.Modules.AdminApi.Repair.{Fix, Verdict}

-- The fields that stand in `Srv` are kept there.
pub record Info : Type 0 where
  pub start : ℕ
  pub srv : Srv
  pub api_key : Text
  pub tls_enabled : Bool

-- The `Info` that `register` builds.
unfoldable pub new_info : ℕ → Srv → Text → Info
new_info start srv api_key = record {
  start = start;
  srv = srv;
  api_key = api_key;
  tls_enabled = not (is_empty srv.tls_cert) && not (is_empty srv.tls_key);
}

-- An entry of the folder src/modules, with its stem where that is valid UTF-8.
pub record ModuleFile : Type 0 where
  pub is_file : Bool
  pub file_stem : Option Text

-- What the pages are about besides: the time in nanoseconds, the number of the process, the counters, the
-- files that exist, the two folders, what is found in the configuration file and what was repaired, the
-- text of the error behind the verdict, and the message for a repair that failed.
pub record Seen : Type 0 where
  pub now : ℕ
  pub pid : ℕ
  pub active : ℕ
  pub snap : Snapshot
  pub exists : Text → Bool
  pub module_files : List ModuleFile
  pub scripts : List DirEntry
  pub verdict : Verdict
  pub fixes : Option (List Fix)
  pub verify_error : Text
  pub repair_error : Text

-- The pieces of a `format!`.
abbrev pub print : List Text → Text
print = join []

abbrev pub show_bool : Bool → Text
show_bool b = if b then lit "true" else lit "false"

abbrev pub quote : Text → Text
quote t = print (lit "\"" ∷ t ∷ lit "\"" ∷ [])

abbrev pushed : Bool → Text → List Text
pushed b t = if b then t ∷ [] else []

unfoldable pub status_json : Info → Seen → Text
unfolding avg_latency_ms
status_json info s =
    let up = (s.now - info.start) / 1_000_000_000 in
    let http2 = info.tls_enabled && info.srv.http2 in
    let http3 = info.tls_enabled && info.srv.http3 in
    let names = lit "HTTP/1.1" ∷ pushed http2 (lit "HTTP/2") ++ pushed http3 (lit "HTTP/3") in
    print (
      lit "{\"status\":\"running\",\"uptime_seconds\":"
      ∷ to_string up
      ∷ lit ",\"uptime\":\""
      ∷ to_string (up / 86400)
      ∷ lit "d "
      ∷ to_string (up % 86400 / 3600)
      ∷ lit "h "
      ∷ to_string (up % 3600 / 60)
      ∷ lit "m "
      ∷ to_string (up % 60)
      ∷ lit "s\",\"listen\":\""
      ∷ info.srv.listen_addr
      ∷ lit "\",\"backend\":\""
      ∷ info.srv.backend_addr
      ∷ lit "\",\"scheme\":\""
      ∷ (if info.tls_enabled then lit "https" else lit "http")
      ∷ lit "\",\"protocols\":\""
      ∷ join (lit ", ") names
      ∷ lit "\",\"pid\":"
      ∷ to_string s.pid
      ∷ lit ",\"active_connections\":"
      ∷ to_string s.active
      ∷ lit ",\"max_connections\":"
      ∷ to_string info.srv.max_connections
      ∷ lit ",\"requests_total\":"
      ∷ to_string s.snap.counters.requests_total
      ∷ lit ",\"requests_ok\":"
      ∷ to_string s.snap.counters.requests_ok
      ∷ lit ",\"requests_err\":"
      ∷ to_string s.snap.counters.requests_err
      ∷ lit ",\"bytes_in\":"
      ∷ to_string s.snap.counters.bytes_in
      ∷ lit ",\"bytes_out\":"
      ∷ to_string s.snap.counters.bytes_out
      ∷ lit ",\"avg_latency_ms\":"
      ∷ to_string (avg_latency_ms s.snap)
      ∷ lit "}"
      ∷ [])

unfoldable pub connections_json : Info → Seen → Text
connections_json info s = print (
    lit "{\"active\":"
    ∷ to_string s.active
    ∷ lit ",\"max\":"
    ∷ to_string info.srv.max_connections
    ∷ lit ",\"total_connections\":"
    ∷ to_string s.snap.counters.connections_total
    ∷ lit "}"
    ∷ [])

unfoldable pub server_config_json : Info → Text
server_config_json info = print (
    lit "{\"listen_addr\":\""
    ∷ info.srv.listen_addr
    ∷ lit "\",\"backend_addr\":\""
    ∷ info.srv.backend_addr
    ∷ lit "\",\"buffer_size\":"
    ∷ to_string info.srv.buffer_size
    ∷ lit ",\"client_timeout\":"
    ∷ to_string info.srv.client_timeout
    ∷ lit ",\"backend_timeout\":"
    ∷ to_string info.srv.backend_timeout
    ∷ lit ",\"max_header_size\":"
    ∷ to_string info.srv.max_header_size
    ∷ lit ",\"max_body_size\":"
    ∷ to_string info.srv.max_body_size
    ∷ lit ",\"max_connections\":"
    ∷ to_string info.srv.max_connections
    ∷ lit ",\"worker_threads\":"
    ∷ to_string info.srv.worker_threads
    ∷ lit ",\"shutdown_timeout\":"
    ∷ to_string info.srv.shutdown_timeout
    ∷ lit ",\"log_level\":\""
    ∷ info.srv.log_level
    ∷ lit "\",\"logging\":"
    ∷ show_bool info.srv.logging
    ∷ lit ",\"tls_cert\":\""
    ∷ info.srv.tls_cert
    ∷ lit "\",\"tls_key\":\""
    ∷ info.srv.tls_key
    ∷ lit "\",\"http2\":"
    ∷ show_bool info.srv.http2
    ∷ lit ",\"http3\":"
    ∷ show_bool info.srv.http3
    ∷ lit ",\"h3_port\":"
    ∷ to_string info.srv.h3_port
    ∷ lit "}"
    ∷ [])

-- `rsplit_once(':')` and the parse of what stands behind it.
unfoldable pub port_of : Text → Option ℕ
port_of listen = do (behind, before) ← split_once b':' (reverse listen); parse_u16 (reverse behind)

unfoldable pub protocols_json : Info → Text
unfolding port_of
protocols_json info =
    let h3_port =
      if ltb 0 info.srv.h3_port
      then info.srv.h3_port
      else unwrap_or (port_of info.srv.listen_addr) 0 in
    print (
      lit "{\"http1\":{  \"enabled\":true,\"port\":\""
      ∷ info.srv.listen_addr
      ∷ lit "\"},\"http2\":{\"enabled\":"
      ∷ show_bool (info.tls_enabled && info.srv.http2)
      ∷ lit ",\"requires_tls\":true,\"alpn\":\"h2\"},\"http3\":{\"enabled\":"
      ∷ show_bool (info.tls_enabled && info.srv.http3)
      ∷ lit ",\"requires_tls\":true,\"transport\":\"QUIC\",\"port\":"
      ∷ to_string h3_port
      ∷ lit "},\"tls_enabled\":"
      ∷ show_bool info.tls_enabled
      ∷ lit "}"
      ∷ [])

unfoldable pub tls_json : Info → Seen → Text
tls_json info s =
    if not info.tls_enabled
    then lit "{\"enabled\":false}"
    else print (
        lit "{\"enabled\":true,\"cert_path\":\""
        ∷ info.srv.tls_cert
        ∷ lit "\",\"key_path\":\""
        ∷ info.srv.tls_key
        ∷ lit "\",\"cert_exists\":"
        ∷ show_bool (s.exists info.srv.tls_cert)
        ∷ lit ",\"key_exists\":"
        ∷ show_bool (s.exists info.srv.tls_key)
        ∷ lit ",\"alpn_protocols\":\""
        ∷ join (lit ", ") (pushed info.srv.http2 (lit "h2") ++ lit "http/1.1" ∷ [])
        ∷ lit "\",\"session_cache_size\":2048}"
        ∷ [])
