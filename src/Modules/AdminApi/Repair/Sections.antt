-- ===== src/Modules/AdminApi/Repair/Sections.antt =====
-- The sections that a repair adds, and those that it keeps.
use modular_rust_reverse_pro.Base.{
  ◌≡◌, refl, sym, ap, subst, ◌∙◌, true, none, some, is_some, List, [], ◌∷◌, Text, lit, text_eq,
  text_beq, HashMap, lookup, insert, lookup-insert, lookup-insert_self, All, arith, inl, inr,
  Bool-cases, Option-cases,
}
use modular_rust_reverse_pro.Toml.{Toml, Builder}
use modular_rust_reverse_pro.Script.Syntax.{ScriptDef}
use modular_rust_reverse_pro.Script.Loader.Defaults.{default_config_table}
use modular_rust_reverse_pro.Modules.AdminApi.Repair.{
  section, Repaired, ensure_server, ensure_modules, ensure_script, ensure_scripts,
}

some_inj : {A : Type 0} {x y : A} → some x ≡ some y → x ≡ y
some_inj e = cc

module _ {t : Toml} (b : Builder t) where
  -- Both sections are there.
  abbrev pub Ready : HashMap Text t.Value → Type 0
  Ready doc =
      (is_some (lookup (lit "server") doc) ≡ true) × (is_some (lookup (lit "modules") doc) ≡ true)

  -- The section of the modules, if it is a table, has this name.
  abbrev pub Holds : Text → HashMap Text t.Value → Type 0
  Holds n doc =
      (m : HashMap Text t.Value)
      → section t (lit "modules") doc ≡ some m
      → is_some (lookup n m) ≡ true

  insert-keeps :
      {V : Type 0} (key k : Text) (x : V) (m : HashMap Text V)
      → is_some (lookup key m) ≡ true
      → is_some (lookup key (insert k x m)) ≡ true
  insert-keeps key k x m h = ground (arith, lookup-insert k key x m)

  pub ensure_server-has :
      (r : Repaired t) → is_some (lookup (lit "server") (ensure_server b r).doc) ≡ true
  unfolding ensure_server
  ensure_server-has r = elim (Bool-cases (is_some (lookup (lit "server") r.doc))) [
    | inl there ↦ rw (there, ensure_server) there
    | inr absent ↦
        rw (absent, ensure_server) (ap is_some (lookup-insert_self (lit "server") _ r.doc))
  ]

  pub ensure_modules-Ready :
      (r : Repaired t)
      → is_some (lookup (lit "server") r.doc) ≡ true
      → Ready (ensure_modules b r).doc
  unfolding ensure_modules
  ensure_modules-Ready r h = elim (Bool-cases (is_some (lookup (lit "modules") r.doc))) [
    | inl there ↦ rw (there, ensure_modules) (h, there)
    | inr absent ↦
        rw (absent, ensure_modules)
          (
            insert-keeps (lit "server") (lit "modules") _ r.doc h,
            ap is_some (lookup-insert_self (lit "modules") _ r.doc),
          )
  ]

  section-insert :
      (doc m : HashMap Text t.Value)
      → section t (lit "modules") (insert (lit "modules") (b.table m) doc) ≡ some m
  unfolding section
  section-insert doc m =
      rw (lookup-insert_self (lit "modules") (b.table m) doc) (b.as_table-table m)

  -- What a repair for one script does: the sections stay, its name is there, and so is every name that was.
  abbrev Adds : Text → HashMap Text t.Value → HashMap Text t.Value → Type 0
  Adds name doc doc' = Ready doc' × Holds name doc' × ((n : Text) → Holds n doc → Holds n doc')

  same-Adds :
      (name : Text) (doc m : HashMap Text t.Value)
      → Ready doc
      → section t (lit "modules") doc ≡ some m
      → is_some (lookup name m) ≡ true
      → Adds name doc doc
  same-Adds name doc m ready e there = (
    ready,
    λ m' e'. subst (λ k. is_some (lookup name k) ≡ true) (some_inj (sym e ∙ e')) there,
    λ n h. h,
  )

  grown-Adds :
      (name : Text) (x : t.Value) (doc m : HashMap Text t.Value)
      → Ready doc
      → section t (lit "modules") doc ≡ some m
      → Adds name doc (insert (lit "modules") (b.table (insert name x m)) doc)
  grown-Adds name x doc m ready e =
      let grown = insert name x m in
      let same = section-insert doc grown in
      (
        (
          insert-keeps (lit "server") (lit "modules") (b.table grown) doc ready.0,
          insert-keeps (lit "modules") (lit "modules") (b.table grown) doc ready.1,
        ),
        λ m' e'.
            subst (λ k. is_some (lookup name k) ≡ true) (some_inj (sym same ∙ e'))
              (ap is_some (lookup-insert_self name x m)),
        λ n h m' e'.
            subst (λ k. is_some (lookup n k) ≡ true) (some_inj (sym same ∙ e'))
              (insert-keeps n name x m (h m e)),
      )

  ensure_script-Adds :
      (def : ScriptDef) (r : Repaired t)
      → Ready r.doc
      → Adds def.name r.doc (ensure_script b def r).doc
  unfolding ensure_script
  ensure_script-Adds def r ready = elim (Option-cases (section t (lit "modules") r.doc)) [
    | inl other ↦
        let kept : ensure_script b def r ≡ r = rw (other, ensure_script) refl in
        subst (λ r'. Adds def.name r.doc r'.doc) (sym kept)
          (ready, λ m e. absurd (cc (other, e)), λ n h. h)
    | inr (m, e) ↦ elim (Bool-cases (is_some (lookup def.name m))) [
      | inl there ↦
          let kept : ensure_script b def r ≡ r = rw (e, there, ensure_script) refl in
          subst (λ r'. Adds def.name r.doc r'.doc) (sym kept)
            (same-Adds def.name r.doc m ready e there)
      | inr absent ↦
          let x = b.table (default_config_table b def) in
          let doc : HashMap Text t.Value =
            insert (lit "modules") (b.table (insert def.name x m)) r.doc in
          let new : (ensure_script b def r).doc ≡ doc = rw (e, absent, ensure_script) refl in
          subst (λ d. Adds def.name r.doc d) (sym new) (grown-Adds def.name x r.doc m ready e)
    ]
  ]

  pub ensure_scripts-Holds :
      (defs : List ScriptDef) (r : Repaired t)
      → Ready r.doc
      → Ready (ensure_scripts b defs r).doc
        × All (λ (d : ScriptDef). Holds d.name (ensure_scripts b defs r).doc) defs
        × ((n : Text) → Holds n r.doc → Holds n (ensure_scripts b defs r).doc)
  unfolding ensure_scripts
  ensure_scripts-Holds [] r ready = (ready, tt, λ n h. h)
  ensure_scripts-Holds (def ∷ defs) r ready =
      let (ready', own, kept) = ensure_script-Adds def r ready in
      let (last, all, later) = ensure_scripts-Holds defs (ensure_script b def r) ready' in
      (last, (later def.name own, all), λ n h. later n (kept n h))

  lookup-insert_modules :
      (x : t.Value) (m : HashMap Text t.Value)
      → lookup (lit "server") (insert (lit "modules") x m) ≡ lookup (lit "server") m
  unfolding lit text_beq
  lookup-insert_modules x m = lookup-insert (lit "modules") (lit "server") x m

  pub ensure_modules-server :
      (r : Repaired t)
      → lookup (lit "server") (ensure_modules b r).doc ≡ lookup (lit "server") r.doc
  unfolding ensure_modules
  ensure_modules-server r = elim (Bool-cases (is_some (lookup (lit "modules") r.doc))) [
    | inl there ↦ rw (there, ensure_modules) refl
    | inr absent ↦ rw (absent, ensure_modules) (lookup-insert_modules (b.table []) r.doc)
  ]

  ensure_script-server :
      (def : ScriptDef) (r : Repaired t)
      → lookup (lit "server") (ensure_script b def r).doc ≡ lookup (lit "server") r.doc
  unfolding ensure_script
  ensure_script-server def r = elim (Option-cases (section t (lit "modules") r.doc)) [
    | inl other ↦ rw (other, ensure_script) refl
    | inr (m, e) ↦ elim (Bool-cases (is_some (lookup def.name m))) [
      | inl there ↦ rw (e, there, ensure_script) refl
      | inr absent ↦ rw (e, absent, ensure_script) (lookup-insert_modules _ r.doc)
    ]
  ]

  pub ensure_scripts-server :
      (defs : List ScriptDef) (r : Repaired t)
      → lookup (lit "server") (ensure_scripts b defs r).doc ≡ lookup (lit "server") r.doc
  unfolding ensure_scripts
  ensure_scripts-server [] r = refl
  ensure_scripts-server (def ∷ defs) r =
      ensure_scripts-server defs (ensure_script b def r) ∙ ensure_script-server def r

  pub ensure_server-adds :
      (r : Repaired t)
      → lookup (lit "server") r.doc ≡ none
      → lookup (lit "server") (ensure_server b r).doc
        ≡ some (
            b.table (
              (lit "listen_addr", b.string (lit "127.0.0.1:8080"))
              ∷ (lit "backend_addr", b.string (lit "127.0.0.1:3000"))
              ∷ []))
  unfolding ensure_server
  ensure_server-adds r absent =
      rw (absent, ensure_server) (lookup-insert_self (lit "server") _ r.doc)

  pub ensure_server-keeps :
      (r : Repaired t) (v : t.Value)
      → lookup (lit "server") r.doc ≡ some v
      → lookup (lit "server") (ensure_server b r).doc ≡ some v
  unfolding ensure_server
  ensure_server-keeps r v there = rw (there, ensure_server) there
