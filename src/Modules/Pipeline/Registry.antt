-- ===== src/Modules/Pipeline/Registry.antt =====
-- Registration: `add_with_priority` and `override_module`.
use modular_rust_reverse_pro.Base.{
  ◌≡◌, refl, Bool, false, not, ◌||◌, List, [], ◌∷◌, Text, ◌==◌, text_eq, text_beq_iff, retain, All,
  All-append, ℤ, arith, inl, inr, Bool-cases,
}
use modular_rust_reverse_pro.Modules.Pipeline.{
  Module, Pipeline, is_overridden, override_module, override_all, add_with_priority,
}

module _ {W : Type 0} where
  -- No module that is loaded has an overridden name.
  abbrev pub Excludes : List Text → List (ℤ × Module W) → Type 0
  Excludes names mods = All (λ e. is_overridden e.1.name names ≡ false) mods

  retain-Excludes :
      (names : List Text) (n : Text) (mods : List (ℤ × Module W))
      → Excludes names mods
      → Excludes (n ∷ names) (retain (λ e. not (e.1.name == n)) mods)
  retain-Excludes names n [] h = tt
  retain-Excludes names n (e ∷ es) h =
      ground
        (arith, retain-Excludes names n es h.1, text_beq_iff e.1.name n, text_beq_iff n e.1.name)

  retain-keeps-Excludes :
      (names : List Text) (q : ℤ × Module W → Bool) (mods : List (ℤ × Module W))
      → Excludes names mods
      → Excludes names (retain q mods)
  retain-keeps-Excludes names q [] h = tt
  retain-keeps-Excludes names q (e ∷ es) h = ground (arith, retain-keeps-Excludes names q es h.1)

module _ {W R : Type 0} where
  override_module-Excludes :
      (n : Text) (p : Pipeline W R)
      → Excludes p.overridden p.mods
      → Excludes (override_module n p).overridden (override_module n p).mods
  unfolding override_module
  override_module-Excludes n p h = elim (Bool-cases (is_overridden n p.overridden)) [
    | inl e ↦ rw (e, override_module) (retain-keeps-Excludes p.overridden _ p.mods h)
    | inr e ↦ rw (e, override_module) (retain-Excludes p.overridden n p.mods h)
  ]

  override_module-is_overridden :
      (n m : Text) (p : Pipeline W R)
      → is_overridden m (override_module n p).overridden ≡ (n == m || is_overridden m p.overridden)
  unfolding override_module
  override_module-is_overridden n m p = elim (Bool-cases (n == m)) [
    | inl e ↦ rw ((text_beq_iff n m).0 e) (ground (arith, text_beq_iff m m))
    | inr e ↦ ground arith
  ]

  override_all-Excludes :
      (os : List Text) (p : Pipeline W R)
      → Excludes p.overridden p.mods
      → Excludes (override_all os p).overridden (override_all os p).mods
  unfolding override_all
  override_all-Excludes [] p h = h
  override_all-Excludes (o ∷ os) p h =
      override_all-Excludes os (override_module o p) (override_module-Excludes o p h)

  override_all-is_overridden :
      (os : List Text) (m : Text) (p : Pipeline W R)
      → is_overridden m (override_all os p).overridden
        ≡ (is_overridden m os || is_overridden m p.overridden)
  unfolding override_all
  override_all-is_overridden [] m p = refl
  override_all-is_overridden (o ∷ os) m p = ground (
    arith,
    override_all-is_overridden os m (override_module o p),
    override_module-is_overridden o m p,
  )

  -- A module that does not override its own name keeps an overridden name out of the pipeline when it is
  -- added, whatever it overrides: before it, so after it, no loaded module has an overridden name.
  pub add_with_priority-Excludes :
      (m : Module W) (k : ℤ) (p : Pipeline W R)
      → is_overridden m.name m.overrides ≡ false
      → Excludes p.overridden p.mods
      → Excludes (add_with_priority m k p).overridden (add_with_priority m k p).mods
  unfolding add_with_priority
  add_with_priority-Excludes m k p own h = elim (Bool-cases (is_overridden m.name p.overridden)) [
    | inl e ↦ rw (e, add_with_priority) h
    | inr e ↦
        rw (e, add_with_priority)
          (All-append _ (override_all m.overrides p).mods ((k, m) ∷ [])
            (override_all-Excludes m.overrides p h)
            (ground (arith, override_all-is_overridden m.overrides m.name p), tt))
  ]
