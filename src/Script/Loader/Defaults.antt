-- ===== src/Script/Loader/Defaults.antt =====
-- `default_config_table` and `to_toml` of src/script/parser.rs, and `collect_script_defaults` of src/script/loader.rs.
use modular_rust_reverse_pro.Base.{List, [], ◌∷◌, map, Text, text_eq, HashMap, insert, none, some}
use modular_rust_reverse_pro.Toml.{Toml, Builder}
use modular_rust_reverse_pro.Script.Syntax.{
  ScriptDef, ConfigField, FieldValue, bool_value, int_value, str_value, list_value,
}
use modular_rust_reverse_pro.Script.Loader.{DirEntry, read_def}

module _ {t : Toml} (b : Builder t) where
  unfoldable pub to_toml : FieldValue → t.Value
  to_toml (bool_value x) = b.boolean x
  to_toml (int_value i) = b.integer i
  to_toml (str_value s) = b.string s
  to_toml (list_value l) = b.array (map b.string l)

  insert_fields : List ConfigField → HashMap Text t.Value → HashMap Text t.Value
  unfolding to_toml
  insert_fields [] m = m
  insert_fields (field ∷ fields) m =
      insert_fields fields (insert field.key (to_toml field.default) m)

  unfoldable pub default_config_table : ScriptDef → HashMap Text t.Value
  unfolding insert_fields
  default_config_table def = insert_fields def.config []

  -- A later script replaces the defaults of an earlier one of its name.
  unfoldable pub collect_from : List DirEntry → HashMap Text t.Value → HashMap Text t.Value
  unfolding default_config_table read_def
  collect_from [] defaults = defaults
  collect_from (e ∷ es) defaults = collect_from es (elim (read_def e) [
    | none ↦ defaults
    | some def ↦ insert def.name (b.table (default_config_table def)) defaults
  ])

  unfoldable pub collect_script_defaults : List DirEntry → HashMap Text t.Value
  unfolding collect_from
  collect_script_defaults entries = collect_from entries []
