-- ===== src/Start/Unique.antt =====
-- The names of the modules that the server gets.
use modular_rust_reverse_pro.Base.{
  ℕ, ◌≡◌, ◌≢◌, sym, subst, refl, Bool, true, false, not, ◌&&◌, List, [], ◌∷◌, map, Text, lit, ◌==◌,
  text_eq, text_beq, text_beq_iff, all, All, All-retain, retain, arith, inl, inr, Bool-cases,
  insert_sorted, sort_by, sort_by-All, insert_sorted-All, ℤ,
}
use modular_rust_reverse_pro.Toml.{Builder}
use modular_rust_reverse_pro.Metrics.{Moment}
use modular_rust_reverse_pro.Config.{Srv}
use modular_rust_reverse_pro.Config.Loading.{Format}
use modular_rust_reverse_pro.Modules.Helpers.{Modules}
use modular_rust_reverse_pro.Modules.Pipeline.{Module, sort, module_names}
use modular_rust_reverse_pro.Modules.Pipeline.Order.{by_priority}
use modular_rust_reverse_pro.Modules.Instances.{Host, Statics, World}
use modular_rust_reverse_pro.Modules.Register.{register_all, fresh}
use modular_rust_reverse_pro.Modules.Register.Steps.{chosen}
use modular_rust_reverse_pro.Modules.Register.Order.{built_in, register_all_names}
use modular_rust_reverse_pro.Script.Runtime.{StdLib}
use modular_rust_reverse_pro.Script.Loader.Names.{Unique, Lacks, load_script_modules-Unique}
use modular_rust_reverse_pro.Script.Stdlib.Balancing.{HealthMap}
use modular_rust_reverse_pro.Script.Stdlib.Starting.{call_init, call_init-AddsNone}
use modular_rust_reverse_pro.Start.{Surroundings, start_up, configured}

abbrev pub Distinct : List Text → Type 0
Distinct [] = Unit {0}
Distinct (n ∷ ns) = All (λ m. m ≢ n) ns × Distinct ns

abbrev distinct : List Text → Bool
distinct [] = true
distinct (n ∷ ns) = all (λ m. not (m == n)) ns && distinct ns

others_sound : (n : Text) (ns : List Text) → all (λ m. not (m == n)) ns ≡ true → All (λ m. m ≢ n) ns
others_sound n [] h = tt
others_sound n (m ∷ ns) h = (ground (arith, text_beq_iff m n), others_sound n ns (ground arith))

distinct_sound : (ns : List Text) → distinct ns ≡ true → Distinct ns
distinct_sound [] h = tt
distinct_sound (n ∷ ns) h = (others_sound n ns (ground arith), distinct_sound ns (ground arith))

chosen-All :
    (P : Text → Type 0) (l : List (Text × Bool)) → All P (map (λ e. e.0) l) → All P (chosen l)
chosen-All P [] h = tt
chosen-All P ((n, true) ∷ l) h = (h.0, chosen-All P l h.1)
chosen-All P ((n, false) ∷ l) h = chosen-All P l h.1

chosen-Distinct : (l : List (Text × Bool)) → Distinct (map (λ e. e.0) l) → Distinct (chosen l)
chosen-Distinct [] d = tt
chosen-Distinct ((n, true) ∷ l) d = (chosen-All (λ m. m ≢ n) l d.0, chosen-Distinct l d.1)
chosen-Distinct ((n, false) ∷ l) d = chosen-Distinct l d.1

retain-Distinct : (f : Text → Bool) (ns : List Text) → Distinct ns → Distinct (retain f ns)
retain-Distinct f [] d = tt
retain-Distinct f (n ∷ ns) d = elim (Bool-cases (f n)) [
  | inl stays ↦ rw stays (All-retain (λ m. m ≢ n) f ns d.0, retain-Distinct f ns d.1)
  | inr goes ↦ rw goes (retain-Distinct f ns d.1)
]

module _ {W : Type 0} where
  names-Lacks :
      (n : Text) (ms : List (ℤ × Module W)) → All (λ m. m ≢ n) (map (λ e. e.1.name) ms) → Lacks n ms
  names-Lacks n [] h = tt
  names-Lacks n (e ∷ ms) h = (h.0, names-Lacks n ms h.1)

  names-Unique : (ms : List (ℤ × Module W)) → Distinct (map (λ e. e.1.name) ms) → Unique ms
  names-Unique [] d = tt
  names-Unique ((p, m) ∷ ms) d = (names-Lacks m.name ms d.0, names-Unique ms d.1)

  insert_sorted-Unique :
      (le : ℤ × Module W → ℤ × Module W → Bool) (x : ℤ × Module W) (ms : List (ℤ × Module W))
      → Lacks x.1.name ms
      → Unique ms
      → Unique (insert_sorted le x ms)
  unfolding insert_sorted
  insert_sorted-Unique le x [] h u = (tt, tt)
  insert_sorted-Unique le x ((p, m) ∷ ms) h u = elim (Bool-cases (le x (p, m))) [
    | inl before ↦ rw before (h, u)
    | inr after ↦ rw after (
      insert_sorted-All le (λ e. e.1.name ≢ m.name) x ms (λ e. h.0 (sym e)) u.0,
      insert_sorted-Unique le x ms h.1 u.1,
    )
  ]

  sort_by-Unique :
      (le : ℤ × Module W → ℤ × Module W → Bool) (ms : List (ℤ × Module W))
      → Unique ms
      → Unique (sort_by le ms)
  unfolding sort_by
  sort_by-Unique le [] u = tt
  sort_by-Unique le ((p, m) ∷ ms) u =
      insert_sorted-Unique le (p, m) (sort_by le ms)
        (sort_by-All le (λ e. e.1.name ≢ m.name) ms u.0) (sort_by-Unique le ms u.1)

module _ (v : Host) (begin : ℕ) (at : Moment) where
  register_all-Unique :
      (c : Modules v.toml) (server : Srv) (statics : Statics v)
      → Unique (register_all v begin at c server (fresh v begin at c server statics)).pipeline.mods
  unfolding module_names lit text_beq
  register_all-Unique c server statics = names-Unique _ (
      subst (λ ns. Distinct ns) (sym (register_all_names v begin at c server statics))
        (retain-Distinct _ (chosen (built_in v begin at c server)) (
          chosen-Distinct (built_in v begin at c server)
            (distinct_sound (map (λ e. e.0) (built_in v begin at c server)) refl))))

  -- When the server starts no two modules have the same name, whatever the configuration says and whatever scripts the
  -- folder holds: of the modules in the pipeline. What has a name and is not in the pipeline is not counted: the threads of
  -- admin_api and active_health, the raw handler, and a script that does all of its work in on_init.
  pub start_up-Unique :
      (b : Builder v.toml) (f : Format v.toml) (std : StdLib (World v)) (statics : Statics v)
      (health : HealthMap) (around : Surroundings)
      → Unique (start_up v b f std begin at statics health around).pipeline.mods
  unfolding start_up sort
  start_up-Unique b f std statics health around =
      let cfg = (configured v b f std begin at around).0 in
      let s =
        register_all v begin at cfg.modules cfg.server
          (fresh v begin at cfg.modules cfg.server statics) in
      sort_by-Unique by_priority _ (
        load_script_modules-Unique std (call_init cfg.server v.binds)
          (call_init-AddsNone cfg.server v.binds) v.toml cfg.modules around.mods
          ((s.pipeline, record { health_map = health; threads = s.threads }), false)
          (register_all-Unique cfg.modules cfg.server statics))
