-- ===== src/Modules/Register/Default.antt =====
-- What `register_all` makes of the configuration that `collect_defaults` gives.
use modular_rust_reverse_pro.Base.{text_eq}
use modular_rust_reverse_pro.Toml.{Toml}
use modular_rust_reverse_pro.Modules.Helpers.{Modules}
