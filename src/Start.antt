-- ===== src/Start.antt =====
-- `main` of src/main.rs up to the run of the server: the configuration with the defaults of the modules and the scripts, the
-- built-in modules, the scripts, and the order of all of them.
pub mod Unique
use modular_rust_reverse_pro.Base.{ℕ, Bool, false, List, Text, HashMap, Option, text_eq, is_some}
use modular_rust_reverse_pro.Toml.{Toml, Builder}
use modular_rust_reverse_pro.Metrics.{Moment}
use modular_rust_reverse_pro.Config.{add_defaults}
use modular_rust_reverse_pro.Config
use modular_rust_reverse_pro.Config.Loading.{Config, Format, load_config}
use modular_rust_reverse_pro.Modules.Defaults.{collect_defaults}
use modular_rust_reverse_pro.Modules.Pipeline.{Pipeline, sort}
use modular_rust_reverse_pro.Modules.Instances.{Host, Statics, World}
use modular_rust_reverse_pro.Modules.Register.{RawTcp, Thread, register_all, fresh}
use modular_rust_reverse_pro.Script.Runtime.{StdLib}
use modular_rust_reverse_pro.Script.Loader.{DirEntry, load_script_modules}
use modular_rust_reverse_pro.Script.Loader.Defaults.{collect_script_defaults}
use modular_rust_reverse_pro.Script.Stdlib.Balancing.{HealthMap}
use modular_rust_reverse_pro.Script.Stdlib.Starting.{Begun, call_init}

-- What the program finds: the text of the configuration file, if it can be read; the folder `mods`; which paths exist.
pub record Surroundings : Type 0 where
  pub config_file : Option Text
  pub mods : List DirEntry
  pub exists : Text → Bool

-- What `main` gives to the server, and what it has written and started; `evicts` tells whether the cache of the scripts is swept.
pub record Started (v : Host) : Type 0 where
  pub config : Config v.toml
  pub written : List Text
  pub pipeline : Pipeline (World v) RawTcp
  pub statics : Statics v
  pub begun : Begun
  pub evicts : Bool

module _ (v : Host) (b : Builder v.toml) (f : Format v.toml) (std : StdLib (World v)) (begin : ℕ)
    (at : Moment) where
  -- The defaults of the scripts stand behind those of the built-in modules.
  unfoldable pub all_defaults : List DirEntry → HashMap Text v.toml.Value
  all_defaults mods = (add_defaults (collect_script_defaults b mods) (collect_defaults b)).0

  unfoldable pub configured : Surroundings → Config v.toml × List Text
  unfolding all_defaults
  configured around =
      load_config b f
        (record { parses = λ a. is_some (v.net.parse_addr a); exists = around.exists })
        around.config_file (all_defaults around.mods)

  -- `statics` is the state at the start of the program, and `health` the empty map of the scripts.
  unfoldable pub start_up : Statics v → HealthMap → Surroundings → Started v
  unfolding configured
  start_up statics health around =
      let (cfg, written) = configured around in
      let s =
        register_all v begin at cfg.modules cfg.server
          (fresh v begin at cfg.modules cfg.server statics) in
      let begun : Begun = record { health_map = health; threads = s.threads } in
      let ((p, i), evicts) =
        load_script_modules std (call_init cfg.server v.binds) v.toml cfg.modules around.mods
          ((s.pipeline, begun), false) in
      record {
        config = cfg;
        written = written;
        pipeline = sort p;
        statics = s.statics;
        begun = i;
        evicts = evicts;
      }
