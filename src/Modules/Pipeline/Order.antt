-- ===== src/Modules/Pipeline/Order.antt =====
-- `Pipeline::sort`
use mathlib.Core.List.{Perm}
use modular_rust_reverse_pro.Base.{
  ◌≡◌, Bool, true, ℤ, leb_ℤ, leb_ℤ_total, leb_ℤ_trans, IsSorted, sort_by-IsSorted, sort_by-perm,
  sort_by_stable, retain, ◌&&◌, arith,
}
use modular_rust_reverse_pro.Modules.Pipeline.{Module, Pipeline, sort}

module _ {W : Type 0} where
  abbrev pub by_priority : ℤ × Module W → ℤ × Module W → Bool
  by_priority a b = leb_ℤ a.0 b.0

  abbrev pub has_priority : ℤ → ℤ × Module W → Bool
  has_priority k e = leb_ℤ k e.0 && leb_ℤ e.0 k

  same_priority :
      (k : ℤ) (x y : ℤ × Module W)
      → has_priority k x ≡ true
      → has_priority k y ≡ true
      → by_priority x y ≡ true
  same_priority k x y h g = leb_ℤ_trans x.0 k y.0 (ground arith) (ground arith)

-- After `sort` every module stands before those of a greater priority number; no module is lost, added or
-- doubled; and the modules of one priority stand in the order in which they were added.
pub sort-by_priority :
    {W R : Type 0} (p : Pipeline W R)
    → IsSorted by_priority (sort p).mods
      × Perm (sort p).mods p.mods
      × ((k : ℤ) → retain (has_priority k) (sort p).mods ≡ retain (has_priority k) p.mods)
unfolding sort
sort-by_priority p = (
  sort_by-IsSorted by_priority (λ x y. leb_ℤ_total x.0 y.0) (λ x y z. leb_ℤ_trans x.0 y.0 z.0)
      p.mods,
  sort_by-perm by_priority p.mods,
  λ k. sort_by_stable by_priority (has_priority k) (same_priority k) p.mods,
)
