-- ===== src/Script/Loader/Names.antt =====
-- The names of the modules after the scripts were loaded.
use modular_rust_reverse_pro.Base.{
  ◌≡◌, ◌≢◌, sym, Bool, true, false, not, some, ◌>>=◌, List, [], ◌∷◌, ◌++◌, map, Text, lit, ◌==◌,
  text_eq, text_beq_iff, All, All-append, All-retain, arith, any, retain, inl, inr, Bool-cases,
  if◌then◌else◌, HashMap, lookup, unwrap_or, ℤ, leb_ℤ, sort_by,
}
use modular_rust_reverse_pro.Toml.{Toml}
use modular_rust_reverse_pro.Modules.Helpers.{filter_map}
use modular_rust_reverse_pro.Modules.Pipeline.{
  Module, Pipeline, override_all, override_module, has_module, is_overridden, add_with_priority,
}
use modular_rust_reverse_pro.Script.Syntax.{
  Commands, nil, cons, std_call, if_cmd, respond, set_header_cmd, log, set_ctx, ScriptDef,
}
use modular_rust_reverse_pro.Script.Runtime.{StdLib, Settings, script_module}
use modular_rust_reverse_pro.Script.Loader.{
  DirEntry, read_def, resolve_config, resolve_init_arg, Init, run_init, add_script, load_one,
  load_all, load_script_modules,
}

module _ {W : Type 0} where
  -- No module has this name.
  abbrev pub Lacks : Text → List (ℤ × Module W) → Type 0
  Lacks n ms = All (λ e. e.1.name ≢ n) ms

  -- No two modules have the same name.
  abbrev pub Unique : List (ℤ × Module W) → Type 0
  Unique [] = Unit {0}
  Unique ((p, m) ∷ ms) = Lacks m.name ms × Unique ms

  Unique-retain :
      (f : ℤ × Module W → Bool) (ms : List (ℤ × Module W)) → Unique ms → Unique (retain f ms)
  Unique-retain f [] u = tt
  Unique-retain f ((p, m) ∷ ms) u = elim (Bool-cases (f (p, m))) [
    | inl stays ↦ rw stays (All-retain (λ e. e.1.name ≢ m.name) f ms u.0, Unique-retain f ms u.1)
    | inr goes ↦ rw goes (Unique-retain f ms u.1)
  ]

  Unique-append :
      (ms : List (ℤ × Module W)) (p : ℤ) (m : Module W)
      → Unique ms
      → Lacks m.name ms
      → Unique (ms ++ (p, m) ∷ [])
  Unique-append [] p m u h = (tt, tt)
  Unique-append ((q, n) ∷ ms) p m u h = (
    All-append (λ e. e.1.name ≢ n.name) ms ((p, m) ∷ []) u.0 (λ e. h.0 (sym e), tt),
    Unique-append ms p m u.1 h.1,
  )

  has_module-Lacks :
      (n : Text) (ms : List (ℤ × Module W)) → any (λ e. e.1.name == n) ms ≡ false → Lacks n ms
  has_module-Lacks n [] h = tt
  has_module-Lacks n ((p, m) ∷ ms) h =
      (ground (arith, text_beq_iff m.name n), has_module-Lacks n ms (ground arith))

module _ {W R : Type 0} where
  -- What a change of the pipeline that adds no module keeps.
  abbrev pub Keeps : Pipeline W R → Pipeline W R → Type 0
  Keeps p q = (Unique p.mods → Unique q.mods) × ((n : Text) → Lacks n p.mods → Lacks n q.mods)

  pub override_all-Keeps : (os : List Text) (p : Pipeline W R) → Keeps p (override_all os p)
  unfolding override_all override_module
  override_all-Keeps [] p = (λ u. u, λ n h. h)
  override_all-Keeps (o ∷ os) p =
      let kept = override_all-Keeps os (override_module o p) in
      (
        λ u. kept.0 (Unique-retain (λ e. not (e.1.name == o)) p.mods u),
        λ n h. kept.1 n (All-retain (λ e. e.1.name ≢ n) (λ e. not (e.1.name == o)) p.mods h),
      )

  if-Unique :
      (b : Bool) (x y : Pipeline W R)
      → Unique x.mods
      → Unique y.mods
      → Unique (if b then x else y).mods
  if-Unique true x y h k = h
  if-Unique false x y h k = k

  add_script-Unique :
      (std : StdLib W) (I : Type 0) (call_init : Init W R I) (def : ScriptDef) (config : Settings)
      (p : Pipeline W R)
      → Unique p.mods
      → Lacks def.name p.mods
      → Unique (add_script std call_init def config p).mods
  unfolding add_script add_with_priority override_all script_module
  add_script-Unique std I call_init def config p u h =
      let m = script_module std config def.name def.on_request def.on_response in
      if-Unique _ p _ u (
        if-Unique (is_overridden def.name p.overridden) p _ u
          (Unique-append p.mods def.priority m u h))

if-Names :
    {W R I : Type 0} (b : Bool) (x y : (Pipeline W R × I) × Bool)
    → Unique x.0.0.mods
    → Unique y.0.0.mods
    → Unique (if b then x else y).0.0.mods
if-Names true x y h k = h
if-Names false x y h k = k

-- What `call_init` does to the modules: it adds none.
abbrev pub AddsNone : {W R I : Type 0} → Init W R I → Type 0
AddsNone {W} {R} {I} call_init =
    (func : Text) (args : List Text) (config : Settings) (s : Pipeline W R × I)
    → Keeps s.0 (call_init func args config s).0

module _ {W R I : Type 0} (std : StdLib W) (call_init : Init W R I)
    (adds_none : AddsNone call_init) where
  run_init-Keeps :
      (config : Settings) (cs : Commands) (s : Pipeline W R × I)
      → Keeps s.0 (run_init std call_init config cs s).0
  unfolding run_init
  run_init-Keeps config nil s = (λ u. u, λ n h. h)
  run_init-Keeps config (cons (std_call func args) cs) s =
      let s' = call_init func (map (resolve_init_arg config) args) config s in
      let first = adds_none func (map (resolve_init_arg config) args) config s in
      let rest = run_init-Keeps config cs s' in
      (λ u. rest.0 (first.0 u), λ n h. rest.1 n (first.1 n h))
  run_init-Keeps config (cons (if_cmd f o v b) cs) s = run_init-Keeps config cs s
  run_init-Keeps config (cons (respond c ct b) cs) s = run_init-Keeps config cs s
  run_init-Keeps config (cons (set_header_cmd n v) cs) s = run_init-Keeps config cs s
  run_init-Keeps config (cons (log l m) cs) s = run_init-Keeps config cs s
  run_init-Keeps config (cons (set_ctx k v) cs) s = run_init-Keeps config cs s

  load_one-Unique :
      (def : ScriptDef) (config : Settings) (s : (Pipeline W R × I) × Bool)
      → Unique s.0.0.mods
      → Unique (load_one std call_init def config s).0.0.mods
  unfolding load_one has_module
  load_one-Unique def config ((p, i), evicts) u =
      let begun = override_all-Keeps def.overrides p in
      let rest = run_init-Keeps config def.on_init (override_all def.overrides p, i) in
      let q = (run_init std call_init config def.on_init (override_all def.overrides p, i)).0 in
      let off = unwrap_or (lookup (lit "enabled") config >>= λ v. some (v == lit "false")) false in
      if-Names off _ _ u (elim (Bool-cases (has_module def.name p)) [
        | inl known ↦ rw (known, has_module) u
        | inr new ↦
            rw (new, has_module)
              (add_script-Unique std I call_init def config q (rest.0 (begun.0 u))
                (rest.1 def.name (begun.1 def.name (has_module-Lacks def.name p.mods new))))
      ])

  module _ (t : Toml) (cfg : HashMap Text t.Value) where
    load_all-Unique :
        (defs : List ScriptDef) (s : (Pipeline W R × I) × Bool)
        → Unique s.0.0.mods
        → Unique (load_all std call_init t cfg defs s).0.0.mods
    unfolding load_all
    load_all-Unique [] s u = u
    load_all-Unique (def ∷ defs) s u =
        load_all-Unique defs (load_one std call_init def (resolve_config t def cfg) s)
          (load_one-Unique def (resolve_config t def cfg) s u)

    -- Where the modules have different names, and the calls of `on_init` add none: after all scripts of the folder were loaded the
    -- modules still have different names, so that no script takes part beside a module of its name or another script of it.
    pub load_script_modules-Unique :
        (entries : List DirEntry) (s : (Pipeline W R × I) × Bool)
        → Unique s.0.0.mods
        → Unique (load_script_modules std call_init t cfg entries s).0.0.mods
    unfolding load_script_modules
    load_script_modules-Unique entries s u =
        load_all-Unique (sort_by (λ a b. leb_ℤ a.priority b.priority) (filter_map read_def entries))
          s u
