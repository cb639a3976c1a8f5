-- ===== src/Modules/Register/Overriding.antt =====
-- What overriding modules leaves of a pipeline.
use modular_rust_reverse_pro.Base.{
  ◌≡◌, refl, ap, ◌∙◌, Bool, not, List, [], ◌∷◌, map, Text, ◌==◌, text_eq, text_beq_iff, All,
  All-retain, arith, retain, retain-IsSorted, IsSorted, ℤ,
}
use modular_rust_reverse_pro.Modules.Pipeline.{
  Module, Pipeline, module_names, override_all, override_module, is_overridden,
}
use modular_rust_reverse_pro.Modules.Pipeline.Order.{by_priority}

abbrev pub stays : List Text → Text → Bool
stays os n = not (is_overridden n os)

pub stays-retain :
    (o : Text) (os ns : List Text)
    → retain (stays os) (retain (λ n. not (n == o)) ns) ≡ retain (stays (o ∷ os)) ns
stays-retain o os [] = refl
stays-retain o os (n ∷ ns) =
    ground (arith, stays-retain o os ns, text_beq_iff n o, text_beq_iff o n)

pub stays_all : (ns : List Text) → ns ≡ retain (stays []) ns
stays_all [] = refl
stays_all (n ∷ ns) = ap (λ l. n ∷ l) (stays_all ns)

module _ {W : Type 0} where
  pub names-retain :
      (f : Text → Bool) (ms : List (ℤ × Module W))
      → map (λ e. e.1.name) (retain (λ e. f e.1.name) ms) ≡ retain f (map (λ e. e.1.name) ms)
  names-retain f [] = refl
  names-retain f (e ∷ ms) = ground (arith, names-retain f ms)

module _ {W R : Type 0} where
  pub override_all-names :
      (os : List Text) (p : Pipeline W R)
      → module_names (override_all os p) ≡ retain (stays os) (module_names p)
  unfolding module_names override_all override_module
  override_all-names [] p = stays_all (module_names p)
  override_all-names (o ∷ os) p =
      override_all-names os (override_module o p)
      ∙ ap (retain (stays os)) (names-retain (λ n. not (n == o)) p.mods)
      ∙ stays-retain o os (module_names p)

  -- What overriding modules keeps.
  pub override_all-keeps :
      (P : ℤ × Module W → Type 0) (os : List Text) (p : Pipeline W R)
      → IsSorted by_priority p.mods
      → All P p.mods
      → IsSorted by_priority (override_all os p).mods × All P (override_all os p).mods
  unfolding override_all override_module
  override_all-keeps P [] p s a = (s, a)
  override_all-keeps P (o ∷ os) p s a =
      override_all-keeps P os (override_module o p) (retain-IsSorted by_priority _ p.mods s)
        (All-retain P _ p.mods a)
