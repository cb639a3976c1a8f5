-- ===== src/Config/Loading.antt =====
-- `load_config` and `generate_config` of src/config.rs. The file is what `read_to_string` gives of it; what the crate `toml` makes
-- of a text, and of a document, is a parameter. What is written to the file is listed; a write that fails is only logged.
pub mod Restarts
use modular_rust_reverse_pro.Base.{
  ℕ, ◌-◌, ◌^◌, Bool, true, false, Option, none, some, List, [], ◌∷◌, ◌++◌, Text, lit, text_eq,
  HashMap, ℤ, pos, negsuc, if◌then◌else◌, ltb, unwrap_or,
}
use modular_rust_reverse_pro.Toml.{Toml, Builder}
use modular_rust_reverse_pro.Config.{Srv, Host, default, checked, add_defaults}

pub record Config (t : Toml) : Type 0 where
  pub server : Srv
  pub modules : HashMap Text t.Value

-- `toml::from_str` and `toml::to_string_pretty`; `none` is one of their errors.
pub record Format (t : Toml) : Type 0 where
  pub from_str : Text → Option (Config t)
  pub to_string_pretty : t.Value → Option Text

-- `n as i64`
unfoldable pub as_i64 : ℕ → ℤ
as_i64 n = if ltb n (2 ^ 63) then pos n else negsuc (2 ^ 64 - 1 - n)

module _ {t : Toml} (b : Builder t) where
  open b use {boolean, integer, string, table}

  unfoldable pub server_table : Srv → HashMap Text t.Value
  unfolding as_i64
  server_table s =
      (lit "listen_addr", string s.listen_addr)
      ∷ (lit "backend_addr", string s.backend_addr)
      ∷ (lit "buffer_size", integer (as_i64 s.buffer_size))
      ∷ (lit "client_timeout", integer (as_i64 s.client_timeout))
      ∷ (lit "backend_timeout", integer (as_i64 s.backend_timeout))
      ∷ (lit "max_header_size", integer (as_i64 s.max_header_size))
      ∷ (lit "max_body_size", integer (as_i64 s.max_body_size))
      ∷ (lit "max_connections", integer (as_i64 s.max_connections))
      ∷ (lit "worker_threads", integer (as_i64 s.worker_threads))
      ∷ (lit "shutdown_timeout", integer (as_i64 s.shutdown_timeout))
      ∷ (lit "log_level", string s.log_level)
      ∷ (lit "logging", boolean s.logging)
      ∷ (lit "tls_cert", string s.tls_cert)
      ∷ (lit "tls_key", string s.tls_key)
      ∷ (lit "http2", boolean s.http2)
      ∷ (lit "http3", boolean s.http3)
      ∷ (lit "h3_port", integer (as_i64 s.h3_port))
      ∷ []

  module _ (f : Format t) where
    unfoldable pub generate_config : Config t → Text
    unfolding server_table
    generate_config cfg =
        unwrap_or
          (f.to_string_pretty (
            table (
              (lit "server", table (server_table cfg.server))
              ∷ (lit "modules", table cfg.modules)
              ∷ [])))
          []

    -- The configuration that is read, and what is written because there is none.
    unfoldable pub read_config : Option Text → HashMap Text t.Value → Config t × List Text
    unfolding generate_config
    read_config none defaults =
        let cfg : Config t = record { server = default; modules = defaults } in
        (cfg, generate_config cfg ∷ [])
    read_config (some txt) defaults =
        (unwrap_or (f.from_str txt) (record { server = default; modules = [] }), [])

    unfoldable pub load_config : Host → Option Text → HashMap Text t.Value → Config t × List Text
    unfolding read_config
    load_config h content module_defaults =
        let (cfg, written) = read_config content module_defaults in
        let (modules, changed) = add_defaults module_defaults cfg.modules in
        let cfg' : Config t = record { server = checked h cfg.server; modules = modules } in
        (cfg', if changed then written ++ generate_config cfg' ∷ [] else written)
