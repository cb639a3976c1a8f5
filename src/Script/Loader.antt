-- ===== src/Script/Loader.antt =====
-- src/script/loader.rs, with resolve_config of src/script/parser.rs. The folder is the list of its entries, in the order in
-- which it is read. What `call_init` does to the pipeline and to the rest, `I`, is a parameter.
pub mod Names
pub mod Defaults
pub mod Listing
use modular_rust_reverse_pro.Base.{
  ℕ, Bool, true, false, not, ◌&&◌, ◌||◌, Option, none, some, ◌>>=◌, List, [], ◌∷◌, map, Text, lit,
  ◌==◌, text_eq, text_beq, if◌then◌else◌, leb, HashMap, lookup, insert, unwrap_or, leb_ℤ, sort_by,
  ℤ,
}
use modular_rust_reverse_pro.Toml.{Toml}
use modular_rust_reverse_pro.Strings.Chars.{strip_prefix}
use modular_rust_reverse_pro.Strings.Numbers.{int_to_string}
use modular_rust_reverse_pro.Strings.Split.{join}
use modular_rust_reverse_pro.Modules.Helpers.{filter_map}
use modular_rust_reverse_pro.Modules.Pipeline.{
  Module, Pipeline, override_all, has_module, add_with_priority,
}
use modular_rust_reverse_pro.Script.Syntax.{
  Command, Commands, nil, cons, std_call, ScriptDef, ConfigField, FieldValue, bool_value, int_value,
  str_value, list_value,
}
use modular_rust_reverse_pro.Script.Parser.{ParseResult, ok, err, parse}
use modular_rust_reverse_pro.Script.Runtime.{StdLib, Settings, script_module}

-- An entry of the folder: its size, if it could be asked for, and its text, if it could be read.
pub record DirEntry : Type 0 where
  pub is_file : Bool
  pub is_pcmod : Bool
  pub size : Option ℕ
  pub source : Option Text

-- A file of more than 1 MB, and one that cannot be read or parsed, is left out.
unfoldable pub read_def : DirEntry → Option ScriptDef
read_def e =
    if e.is_file && e.is_pcmod && unwrap_or (e.size >>= λ n. some (leb n 1_048_576)) false
    then e.source >>= (λ src. elim (parse src) [ ok def ↦ some def | err msg ↦ none ])
    else none

bool_text : Bool → Text
bool_text true = lit "true"
bool_text false = lit "false"

unfoldable pub default_text : FieldValue → Text
unfolding bool_text
default_text (bool_value b) = bool_text b
default_text (int_value i) = int_to_string i
default_text (str_value s) = s
default_text (list_value l) = join (lit ",") l

module _ (t : Toml) where
  -- A value is of exactly one of these kinds, or of another one.
  unfoldable pub setting_text : t.Value → Text
  unfolding bool_text filter_map
  setting_text v = elim (t.as_str v) [
    | some s ↦ s
    | none ↦ elim (t.as_integer v) [
      | some i ↦ int_to_string i
      | none ↦ elim (t.as_bool v) [
        | some b ↦ bool_text b
        | none ↦ elim (t.as_array v) [
          | some a ↦ join (lit ",") (filter_map t.as_str a)
          | none ↦ t.display v
        ]
      ]
    ]
  ]

  resolve_fields : Option t.Value → List ConfigField → Settings → Settings
  unfolding setting_text default_text
  resolve_fields mod_cfg [] resolved = resolved
  resolve_fields mod_cfg (field ∷ fields) resolved =
      let given = mod_cfg >>= λ v. t.get v field.key >>= λ w. some (setting_text w) in
      resolve_fields mod_cfg fields
        (insert field.key (unwrap_or given (default_text field.default)) resolved)

  unfoldable pub resolve_config : ScriptDef → HashMap Text t.Value → Settings
  unfolding resolve_fields
  resolve_config def cfg = resolve_fields (lookup def.name cfg) def.config []

unfoldable pub resolve_init_arg : Settings → Text → Text
resolve_init_arg config arg = elim (strip_prefix (lit "$") arg) [
  | some key ↦ unwrap_or (lookup key config) []
  | none ↦ arg
]

abbrev is_nil : Commands → Bool
is_nil nil = true
is_nil (cons c cs) = false

-- Whether a script uses the cache, for which the eviction thread is started, once.
unfoldable pub checks_cache : Commands → Bool
checks_cache nil = false
checks_cache (cons (std_call func args) cs) = func == lit "cache.check" || checks_cache cs
checks_cache (cons _ cs) = checks_cache cs

abbrev pub Init : Type 0 → Type 0 → Type 0 → Type 0
Init W R I = Text → List Text → Settings → Pipeline W R × I → Pipeline W R × I

module _ {W R I : Type 0} (std : StdLib W) (call_init : Init W R I) where
  -- The commands of `on_init`; those that are no calls are passed over.
  unfoldable pub run_init : Settings → Commands → Pipeline W R × I → Pipeline W R × I
  unfolding resolve_init_arg
  run_init config nil s = s
  run_init config (cons (std_call func args) cs) s =
      run_init config cs (call_init func (map (resolve_init_arg config) args) config s)
  run_init config (cons _ cs) s = run_init config cs s

  -- A script that has handlers becomes a module.
  unfoldable pub add_script : ScriptDef → Settings → Pipeline W R → Pipeline W R
  add_script def config p =
      if is_nil def.on_request && is_nil def.on_response
      then p
      else add_with_priority (script_module std config def.name def.on_request def.on_response)
          def.priority p

  -- One script, with its settings. The flag tells whether the eviction thread runs.
  unfoldable pub load_one :
      ScriptDef → Settings → (Pipeline W R × I) × Bool → (Pipeline W R × I) × Bool
  unfolding run_init add_script checks_cache
  load_one def config ((p, i), evicts) =
      let (p', i') = run_init config def.on_init (override_all def.overrides p, i) in
      if unwrap_or (lookup (lit "enabled") config >>= λ v. some (v == lit "false")) false
      then ((p, i), evicts)
      else if has_module def.name p
      then ((p, i), evicts)
      else ((add_script def config p', i'), evicts || checks_cache def.on_request)

  module _ (t : Toml) (cfg : HashMap Text t.Value) where
    load_all : List ScriptDef → (Pipeline W R × I) × Bool → (Pipeline W R × I) × Bool
    unfolding load_one
    load_all [] s = s
    load_all (def ∷ defs) s = load_all defs (load_one def (resolve_config t def cfg) s)

    -- `load_script_modules`
    unfoldable pub load_script_modules :
        List DirEntry → (Pipeline W R × I) × Bool → (Pipeline W R × I) × Bool
    unfolding load_all read_def
    load_script_modules entries s =
        load_all (sort_by (λ a b. leb_ℤ a.priority b.priority) (filter_map read_def entries)) s
