-- ===== src/Config.antt =====
-- src/config.rs: the server section, its defaults, its validation, and what `load_config` makes of it.
pub mod Validation
pub mod Loading
use modular_rust_reverse_pro.Base.{
  ℕ, ◌*◌, Bool, true, false, not, ◌&&◌, ◌||◌, Text, lit, if◌then◌else◌, ltb, nat_beq, is_empty,
  List, [], ◌∷◌, HashMap, lookup, insert, text_eq, is_some, Option, none, some,
}

pub record Srv : Type 0 where
  pub listen_addr : Text
  pub backend_addr : Text
  pub buffer_size : ℕ
  pub client_timeout : ℕ
  pub backend_timeout : ℕ
  pub max_header_size : ℕ
  pub max_body_size : ℕ
  pub max_connections : ℕ
  pub worker_threads : ℕ
  pub shutdown_timeout : ℕ
  pub log_level : Text
  pub logging : Bool
  pub tls_cert : Text
  pub tls_key : Text
  pub http2 : Bool
  pub http3 : Bool
  pub h3_port : ℕ

-- `Srv::default`
unfoldable pub default : Srv
default = record {
  listen_addr = lit "127.0.0.1:3000";
  backend_addr = lit "127.0.0.1:8080";
  buffer_size = 8192;
  client_timeout = 30;
  backend_timeout = 30;
  max_header_size = 65_536;
  max_body_size = 16 * 1024 * 1024;
  max_connections = 10_000;
  worker_threads = 0;
  shutdown_timeout = 15;
  log_level = lit "info";
  logging = true;
  tls_cert = [];
  tls_key = [];
  http2 = true;
  http3 = false;
  h3_port = 0;
}

abbrev or_default : ℕ → ℕ → ℕ
or_default n d = if nat_beq n 0 then d else n

-- What the standard library answers: whether a text is a socket address, and whether a path exists.
pub record Host : Type 0 where
  pub parses : Text → Bool
  pub exists : Text → Bool

-- The values that `validate` puts in the place of unusable ones.
unfoldable pub repair : Srv → Srv
repair s = record s {
  buffer_size = if ltb s.buffer_size 1024 then 1024 else s.buffer_size;
  client_timeout = or_default s.client_timeout 30;
  backend_timeout = or_default s.backend_timeout 30;
  max_body_size = or_default s.max_body_size (16 * 1024 * 1024);
  max_header_size = or_default s.max_header_size 65_536;
  max_connections = or_default s.max_connections 10_000;
  shutdown_timeout = or_default s.shutdown_timeout 15;
}

-- TLS is off, or both of its files are there.
unfoldable pub tls_valid : Host → Srv → Bool
tls_valid h s =
    if is_empty s.tls_cert && is_empty s.tls_key
    then true
    else if is_empty s.tls_cert || is_empty s.tls_key
    then false
    else h.exists s.tls_cert && h.exists s.tls_key

-- The repaired section, and whether the rest of it is valid.
unfoldable pub validate : Host → Srv → Srv × Bool
unfolding repair tls_valid
validate h s = (repair s, h.parses s.listen_addr && (h.parses s.backend_addr && tls_valid h s))

-- The block of `load_config` behind a failed validation.
unfoldable pub fall_back : Host → Srv → Srv
fall_back h s =
    let cert_ok = not (is_empty s.tls_cert) && h.exists s.tls_cert in
    let key_ok = not (is_empty s.tls_key) && h.exists s.tls_key in
    let disable = not (is_empty s.tls_cert && is_empty s.tls_key) && not (cert_ok && key_ok) in
    record s {
      listen_addr = if h.parses s.listen_addr then s.listen_addr else lit "127.0.0.1:3000";
      backend_addr = if h.parses s.backend_addr then s.backend_addr else lit "127.0.0.1:8080";
      tls_cert = if disable then [] else s.tls_cert;
      tls_key = if disable then [] else s.tls_key;
    }

-- The server section that `load_config` returns for the one that it has read.
unfoldable pub checked : Host → Srv → Srv
unfolding validate fall_back
checked h s = let (s', valid) = validate h s in if valid then s' else fall_back h s'

module _ {V : Type 0} where
  -- `entry(name).or_insert_with(..)` for each default: the modules, and whether one was added.
  unfoldable pub add_defaults : List (Text × V) → HashMap Text V → HashMap Text V × Bool
  add_defaults [] m = (m, false)
  add_defaults ((name, value) ∷ ds) m =
      let present = is_some (lookup name m) in
      let (m', changed) = add_defaults ds (if present then m else insert name value m) in
      (m', not present || changed)
