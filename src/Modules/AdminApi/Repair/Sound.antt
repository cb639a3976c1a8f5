-- ===== src/Modules/AdminApi/Repair/Sound.antt =====
-- What is left to complain about after a repair.
use modular_rust_reverse_pro.Base.{
  ◌≡◌, ◌⊎◌, none, some, List, [], Text, lit, text_eq, HashMap, lookup, All,
}
use modular_rust_reverse_pro.Toml.{Toml, Builder}
use modular_rust_reverse_pro.Modules.AdminApi.Repair.{
  Issue, missing_server, missing_key, missing_modules, missing_script,
}

-- An address is missing in a server section that is there.
abbrev pub IsKeyIssue : Issue → Type 0
IsKeyIssue (missing_key k) = Unit {0}
IsKeyIssue missing_server = ⊥
IsKeyIssue missing_modules = ⊥
IsKeyIssue (missing_script n) = ⊥

module _ {t : Toml} (b : Builder t) where
  -- The server section behind a repair is the one that was there, or complete.
  abbrev pub ServerKept : HashMap Text t.Value → HashMap Text t.Value → List Issue → Type 0
  ServerKept before after found =
      ((lookup (lit "server") before ≡ none) × (found ≡ []))
      ⊎ ((v : t.Value) × (lookup (lit "server") before ≡ some v)
          × (lookup (lit "server") after ≡ some v)
          × All IsKeyIssue found)
