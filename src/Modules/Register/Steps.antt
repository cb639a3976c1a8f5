-- ===== src/Modules/Register/Steps.antt =====
-- A pipeline that is built by `add` alone, one module after the other in the order of the priorities.
use modular_rust_reverse_pro.Base.{
  none, ℕ, ◌≤◌, ◌≡◌, refl, sym, ap, ◌∙◌, Bool, true, false, List, [], ◌∷◌, ◌++◌, Text, ℤ, pos,
  leb_ℤ, leb_ℤ_trans, All, All-append, IsSorted, if◌then◌else◌, arith,
}
use mathlib.Core.List.{map-append, append-nil}
use modular_rust_reverse_pro.Modules.Pipeline.{
  Module, Pipeline, add, add_with_priority, override_all, default_priority, module_names,
}
use modular_rust_reverse_pro.Modules.Pipeline.Order.{by_priority}

-- The names whose flag is set.
abbrev pub chosen : List (Text × Bool) → List Text
chosen [] = []
chosen ((n, b) ∷ l) = if b then n ∷ chosen l else chosen l

chosen-append : (l l' : List (Text × Bool)) → chosen (l ++ l') ≡ chosen l ++ chosen l'
chosen-append [] l' = refl
chosen-append ((n, true) ∷ l) l' = ap (λ ns. n ∷ ns) (chosen-append l l')
chosen-append ((n, false) ∷ l) l' = chosen-append l l'

module _ {W : Type 0} where
  -- No module has a greater priority than `k`.
  abbrev pub Below : ℕ → List (ℤ × Module W) → Type 0
  Below k ms = All (λ e. leb_ℤ e.0 (pos k) ≡ true) ms

  Below-weaken : (k n : ℕ) (ms : List (ℤ × Module W)) → k ≤ n → Below k ms → Below n ms
  Below-weaken k n [] le h = tt
  Below-weaken k n (e ∷ ms) le h =
      (leb_ℤ_trans e.0 (pos k) (pos n) h.0 (ground arith), Below-weaken k n ms le h.1)

  append-IsSorted :
      (ms : List (ℤ × Module W)) (m : Module W) (k n : ℕ)
      → k ≤ n
      → Below k ms
      → IsSorted by_priority ms
      → IsSorted by_priority (ms ++ (pos n, m) ∷ [])
  append-IsSorted [] m k n le h s = (tt, tt)
  append-IsSorted (e ∷ ms) m k n le h s = (
    All-append (λ y. by_priority e y ≡ true) ms ((pos n, m) ∷ []) s.0
        (leb_ℤ_trans e.0 (pos k) (pos n) h.0 (ground arith), tt),
    append-IsSorted ms m k n le h.1 s.1,
  )

module _ {W R : Type 0} where
  -- Nothing is overridden yet.
  pub add_free :
      (m : Module W) (n : ℕ) (p : Pipeline W R)
      → m.overrides ≡ []
      → default_priority m.name ≡ pos n
      → p.overridden ≡ []
      → add m p ≡ record p { mods = p.mods ++ (pos n, m) ∷ [] }
  unfolding add add_with_priority override_all
  add_free m n p o d f = rw (o, d, f) refl

module _ {W R : Type 0} (P : Module W → Type 0) where
  -- The pipeline holds those of the names in `l` whose flag is set, in this order, which is that of their priorities,
  -- up to `k`; nothing is overridden, and there is no raw handler; and `P` holds of each module.
  pub record Built (l : List (Text × Bool)) (k : ℕ) (p : Pipeline W R) : Type 0 where
    pub names : module_names p ≡ chosen l
    pub free : p.overridden ≡ []
    pub plain : p.raw ≡ none
    pub sorted : IsSorted by_priority p.mods
    pub below : Below k p.mods
    pub kept : All (λ e. P e.1) p.mods

  pub skip-Built :
      (name : Text) (l : List (Text × Bool)) (k n : ℕ) (p : Pipeline W R)
      → k ≤ n
      → Built l k p
      → Built (l ++ (name, false) ∷ []) n p
  skip-Built name l k n p le b = record {
    names = b.names ∙ sym (chosen-append l ((name, false) ∷ []) ∙ append-nil (chosen l));
    free = b.free;
    plain = b.plain;
    sorted = b.sorted;
    below = Below-weaken k n p.mods le b.below;
    kept = b.kept;
  }

  pub add-Built :
      (m : Module W) (l : List (Text × Bool)) (k n : ℕ) (p : Pipeline W R)
      → m.overrides ≡ []
      → default_priority m.name ≡ pos n
      → k ≤ n
      → P m
      → Built l k p
      → Built (l ++ (m.name, true) ∷ []) n (add m p)
  unfolding module_names
  add-Built m l k n p o d le q b = rw (add_free m n p o d b.free) (record {
    names =
        map-append (λ (e : ℤ × Module W). e.1.name) p.mods ((pos n, m) ∷ [])
        ∙ ap (λ ns. ns ++ m.name ∷ []) b.names
        ∙ sym (chosen-append l ((m.name, true) ∷ []));
    free = b.free;
    plain = b.plain;
    sorted = append-IsSorted p.mods m k n le b.below b.sorted;
    below = All-append _ p.mods _ (Below-weaken k n p.mods le b.below) (ground arith, tt);
    kept = All-append _ p.mods _ b.kept (q, tt);
  })
