-- ===== src/Script/Loader/Listing.antt =====
-- `list_loaded_mods` of src/script/stdlib.rs: the scripts of the folder, for the admin interface.
use modular_rust_reverse_pro.Base.{
  Bool, true, false, Option, none, some, ◌>>=◌, List, [], ◌∷◌, map, Text, lit, ◌==◌, text_eq,
  if◌then◌else◌,
}
use modular_rust_reverse_pro.Modules.Helpers.{filter_map}
use modular_rust_reverse_pro.Script.Syntax.{
  ScriptDef, ConfigField, FieldValue, bool_value, int_value, str_value, list_value,
}
use modular_rust_reverse_pro.Script.Parser.{ok, err, parse}
use modular_rust_reverse_pro.Script.Loader.{DirEntry}

-- An entry with the extension `pcmod` that can be read and parsed, of whatever size.
unfoldable pub listed_def : DirEntry → Option ScriptDef
listed_def e =
    if e.is_pcmod
    then e.source >>= (λ src. elim (parse src) [ ok def ↦ some def | err msg ↦ none ])
    else none

unfoldable pub listed : List DirEntry → List ScriptDef
unfolding filter_map listed_def
listed entries = filter_map listed_def entries

is_true : FieldValue → Bool
is_true (bool_value b) = b
is_true (int_value i) = false
is_true (str_value s) = false
is_true (list_value l) = false

pub enabled_by : List ConfigField → Bool
unfolding is_true
enabled_by [] = true
enabled_by (f ∷ fs) =
    let rest = enabled_by fs in if f.key == lit "enabled" then is_true f.default else rest

unfoldable pub list_loaded_mods : List DirEntry → List (Text × Text × Bool)
unfolding enabled_by listed
list_loaded_mods entries =
    map (λ def. (def.name, def.version, enabled_by def.config)) (listed entries)
