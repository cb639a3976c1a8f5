-- ===== src/Config/Loading/Restarts.antt =====
-- What `load_config` makes of a file that it has written itself, and of one that it cannot read.
use modular_rust_reverse_pro.Base.{
  ◌≡◌, refl, true, false, Option, none, some, is_some, List, [], ◌∷◌, Text, lit, text_eq, HashMap,
  lookup, insert, lookup-insert, lookup-insert_self, All, if◌then◌else◌, inl, inr, Bool-cases,
  arith,
}
use modular_rust_reverse_pro.Toml.{Toml, Builder}
use modular_rust_reverse_pro.Config.{Host, default, checked, add_defaults}
use modular_rust_reverse_pro.Config.Validation.{checked-IsRunnable, checked_kept}
use modular_rust_reverse_pro.Config.Loading.{
  Config, Format, generate_config, read_config, load_config,
}

module _ {V : Type 0} where
  -- Each default has a section of its name.
  abbrev pub Covers : List (Text × V) → HashMap Text V → Type 0
  Covers ds m = All (λ d. is_some (lookup d.0 m) ≡ true) ds

  add_defaults-keeps :
      (key : Text) (ds : List (Text × V)) (m : HashMap Text V)
      → is_some (lookup key m) ≡ true
      → is_some (lookup key (add_defaults ds m).0) ≡ true
  unfolding add_defaults
  add_defaults-keeps key [] m h = h
  add_defaults-keeps key ((name, value) ∷ ds) m h = elim (Bool-cases (is_some (lookup name m))) [
    | inl present ↦ rw (present, add_defaults) (add_defaults-keeps key ds m h)
    | inr absent ↦
        rw (absent, add_defaults)
          (add_defaults-keeps key ds (insert name value m)
            (ground (arith, lookup-insert name key value m)))
  ]

  pub add_defaults-Covers :
      (ds : List (Text × V)) (m : HashMap Text V) → Covers ds (add_defaults ds m).0
  unfolding add_defaults
  add_defaults-Covers [] m = tt
  add_defaults-Covers ((name, value) ∷ ds) m =
      let m' = if is_some (lookup name m) then m else insert name value m in
      (
        add_defaults-keeps name ds m' (ground (arith, lookup-insert_self name value m)),
        add_defaults-Covers ds m',
      )

  add_defaults_kept :
      (ds : List (Text × V)) (m : HashMap Text V) → Covers ds m → add_defaults ds m ≡ (m, false)
  unfolding add_defaults
  add_defaults_kept [] m c = refl
  add_defaults_kept ((name, value) ∷ ds) m c =
      rw (c.0, add_defaults) (rw (add_defaults_kept ds m c.1) refl)

module _ {t : Toml} (b : Builder t) (f : Format t) (h : Host)
    (defaults : HashMap Text t.Value) where
  load_config_kept :
      (txt : Text) (cfg : Config t)
      → f.from_str txt ≡ some cfg
      → checked h cfg.server ≡ cfg.server
      → add_defaults defaults cfg.modules ≡ (cfg.modules, false)
      → load_config b f h (some txt) defaults ≡ (cfg, [])
  unfolding load_config read_config
  load_config_kept txt cfg back runs covers = rw (back, load_config) (rw (runs, covers) refl)

  -- Whatever the file is, the configuration that is loaded has a section for each module with defaults; and if the format
  -- gives it back from the text that is printed of it, then at the next start it is loaded as it stands, and nothing
  -- is written. The two fallback addresses must parse.
  pub load_config_again :
      (content : Option Text)
      → h.parses (lit "127.0.0.1:3000") ≡ true
      → h.parses (lit "127.0.0.1:8080") ≡ true
      → f.from_str (generate_config b f (load_config b f h content defaults).0)
        ≡ some (load_config b f h content defaults).0
      → Covers defaults (load_config b f h content defaults).0.modules
        × (load_config b f h
              (some (generate_config b f (load_config b f h content defaults).0))
              defaults
            ≡ ((load_config b f h content defaults).0, []))
  unfolding load_config
  load_config_again content p q back =
      let cfg = (read_config b f content defaults).0 in
      let covered = add_defaults-Covers defaults cfg.modules in
      (
        covered,
        load_config_kept (generate_config b f (load_config b f h content defaults).0)
            (load_config b f h content defaults).0 back
            (checked_kept h (checked h cfg.server) (checked-IsRunnable h cfg.server p q))
            (add_defaults_kept defaults (add_defaults defaults cfg.modules).0 covered),
      )

  -- A file that cannot be parsed is overwritten at the start by the default server section and the defaults of the
  -- modules: nothing of its text is kept.
  pub load_config_overwrites :
      (txt name : Text) (value : t.Value) (ds : HashMap Text t.Value)
      → f.from_str txt ≡ none
      → defaults ≡ (name, value) ∷ ds
      → (load_config b f h (some txt) defaults).1
        ≡ generate_config b f
            (record { server = checked h default; modules = (add_defaults defaults []).0 })
          ∷ []
  unfolding load_config read_config add_defaults lookup
  load_config_overwrites txt name value ds broken e = rw (broken, load_config) (rw e refl)
