-- ===== src/Modules/AdminApi/Repair.antt =====
-- `config_verify` and `config_repair` of src/modules/admin_api.rs. What `content.parse::<toml::Table>()` and `to_string_pretty` give
-- is a parameter, as is the file.
pub mod Sections
pub mod Sound
use modular_rust_reverse_pro.Base.{
  Bool, true, false, not, Option, none, some, is_some, is_empty, ◌>>=◌, List, [], ◌∷◌, ◌++◌, Text,
  lit, text_eq, if◌then◌else◌, HashMap, lookup, insert, unwrap_or,
}
use modular_rust_reverse_pro.Toml.{Toml, Builder}
use modular_rust_reverse_pro.Script.Syntax.{ScriptDef}
use modular_rust_reverse_pro.Script.Loader.{DirEntry}
use modular_rust_reverse_pro.Script.Loader.Listing.{listed, list_loaded_mods}
use modular_rust_reverse_pro.Script.Loader.Defaults.{default_config_table}

pub data Issue : Type 0 where
  missing_server : Issue
  missing_key : Text → Issue
  missing_modules : Issue
  missing_script : Text → Issue

pub data Fix : Type 0 where
  added_server : Fix
  added_modules : Fix
  added_script : Text → Fix

pub data Verdict : Type 0 where
  unreadable : Verdict
  unparsable : Verdict
  issues : List Issue → Verdict

module _ (t : Toml) where
  -- The section as a table, if it is there and is one.
  unfoldable pub section : Text → HashMap Text t.Value → Option (HashMap Text t.Value)
  section name m = do v ← lookup name m; t.as_table v

  missing_keys : List Text → HashMap Text t.Value → List Issue
  missing_keys [] srv = []
  missing_keys (k ∷ ks) srv =
      if is_some (lookup k srv) then missing_keys ks srv else missing_key k ∷ missing_keys ks srv

  unfoldable pub server_issues : HashMap Text t.Value → List Issue
  unfolding missing_keys section
  server_issues m =
      if not (is_some (lookup (lit "server") m))
      then missing_server ∷ []
      else elim (section (lit "server") m) [
        | none ↦ []
        | some srv ↦ missing_keys (lit "listen_addr" ∷ lit "backend_addr" ∷ []) srv
      ]

  unfoldable pub script_issues : List (Text × Text × Bool) → HashMap Text t.Value → List Issue
  script_issues [] modules = []
  script_issues ((name, version, enabled) ∷ mods) modules =
      if is_some (lookup name modules)
      then script_issues mods modules
      else missing_script name ∷ script_issues mods modules

  unfoldable pub issues_of : List (Text × Text × Bool) → HashMap Text t.Value → List Issue
  unfolding server_issues script_issues section
  issues_of mods m =
      server_issues m
      ++ ((if is_some (lookup (lit "modules") m) then [] else missing_modules ∷ [])
          ++ elim (section (lit "modules") m) [
            | none ↦ []
            | some modules ↦ script_issues mods modules
          ])

  module _ (parse_table : Text → Option (HashMap Text t.Value)) (entries : List DirEntry) where
    unfoldable pub config_verify : Option Text → Verdict
    unfolding issues_of
    config_verify none = unreadable
    config_verify (some content) = elim (parse_table content) [
      | none ↦ unparsable
      | some m ↦ issues (issues_of (list_loaded_mods entries) m)
    ]

-- The table as it is repaired so far, and what was repaired.
pub record Repaired (t : Toml) : Type 0 where
  pub doc : HashMap Text t.Value
  pub fixes : List Fix

module _ {t : Toml} (b : Builder t) where
  unfoldable pub ensure_server : Repaired t → Repaired t
  ensure_server r = if is_some (lookup (lit "server") r.doc) then r else record {
    doc =
        insert (lit "server")
          (b.table (
            (lit "listen_addr", b.string (lit "127.0.0.1:8080"))
            ∷ (lit "backend_addr", b.string (lit "127.0.0.1:3000"))
            ∷ []))
          r.doc;
    fixes = r.fixes ++ added_server ∷ [];
  }

  unfoldable pub ensure_modules : Repaired t → Repaired t
  ensure_modules r = if is_some (lookup (lit "modules") r.doc) then r else record {
    doc = insert (lit "modules") (b.table []) r.doc;
    fixes = r.fixes ++ added_modules ∷ [];
  }

  unfoldable pub ensure_script : ScriptDef → Repaired t → Repaired t
  unfolding section
  ensure_script def r = elim (section t (lit "modules") r.doc) [
    | none ↦ r
    | some modules ↦ if is_some (lookup def.name modules) then r else record {
      doc =
          insert (lit "modules")
            (b.table (insert def.name (b.table (default_config_table b def)) modules)) r.doc;
      fixes = r.fixes ++ added_script def.name ∷ [];
    }
  ]

  unfoldable pub ensure_scripts : List ScriptDef → Repaired t → Repaired t
  unfolding ensure_script
  ensure_scripts [] r = r
  ensure_scripts (def ∷ defs) r = ensure_scripts defs (ensure_script def r)

  module _ (parse_table : Text → Option (HashMap Text t.Value)) (entries : List DirEntry) where
    -- The file that cannot be read, or not be parsed, is taken as empty.
    unfoldable pub repaired : Option Text → Repaired t
    unfolding ensure_server ensure_modules ensure_scripts
    repaired content = ensure_scripts (listed entries) (
        ensure_modules (
          ensure_server
            (record { doc = unwrap_or (parse_table (unwrap_or content [])) []; fixes = [] })))

    -- What is written to the file, if anything was repaired and the table can be printed; `writes` tells whether the
    -- file can be written. The fixes are the answer, or `none` for an error.
    unfoldable pub config_repair :
        (t.Value → Option Text) → Bool → Option Text → Option Text × Option (List Fix)
    unfolding repaired
    config_repair to_string_pretty writes content =
        let r = repaired content in
        if is_empty r.fixes then (none, some r.fixes) else elim (to_string_pretty (b.table r.doc)) [
          | none ↦ (none, none)
          | some text ↦ if writes then (some text, some r.fixes) else (none, none)
        ]
