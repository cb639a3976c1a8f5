-- ===== src/Pool/Bounds.antt =====
-- The number of idle connections that the pool keeps.
use mathlib.Core.List.{reverse}
use native.Mathlib.Nat.{le_trans}
use modular_rust_reverse_pro.Base.{
  ℕ, ◌≤◌, ◌≡◌, Option, List, [], ◌∷◌, ◌++◌, if◌then◌else◌, ltb, length, length-append,
  length-reverse, length-retain-le, HashMap, lookup, insert-All, lookup-All, Eq, All, unwrap_or,
  arith, Bool-cases, Option-cases, inl, inr,
}
use modular_rust_reverse_pro.Sync.{lock}
use modular_rust_reverse_pro.Pool.{
  Pooled, ConnPool, Probe, get_pooled, get, put, pop_usable, purge, is_recent, max_idle_per_host,
}

module _ {S : Type 0} where
  length-pop_usable :
      (probe : S → Probe) (now : ℕ) (ps : List (Pooled S))
      → length (pop_usable probe now ps).1 ≤ length ps
  unfolding pop_usable
  length-pop_usable probe now [] = omega arith
  length-pop_usable probe now (p ∷ ps) = ground (arith, length-pop_usable probe now ps)

  -- A host keeps no more than 8 idle connections.
  abbrev pub IsBounded : List (Pooled S) → Type 0
  IsBounded conns = length conns ≤ max_idle_per_host

  reuse-IsBounded :
      (probe : S → Probe) (now : ℕ) (conns : List (Pooled S))
      → IsBounded conns
      → IsBounded (reverse (pop_usable probe now (reverse conns)).1)
  reuse-IsBounded probe now conns h = omega (
    arith,
    length-reverse {0} (pop_usable probe now (reverse conns)).1,
    length-pop_usable probe now (reverse conns),
    length-reverse {0} conns,
  )

  push-IsBounded :
      (conns : List (Pooled S)) (p : Pooled S)
      → IsBounded conns
      → IsBounded (if ltb (length conns) max_idle_per_host then conns ++ p ∷ [] else conns)
  push-IsBounded conns p h = ground (arith, length-append conns (p ∷ []))

module _ {A S : Type 0} where
  abbrev pub AllBounded : HashMap A (List (Pooled S)) → Type 0
  AllBounded m = All (λ (d : A × List (Pooled S)). IsBounded d.1) m

  purge-AllBounded :
      (now : ℕ) (m : HashMap A (List (Pooled S))) → AllBounded m → AllBounded (purge now m)
  unfolding purge
  purge-AllBounded now [] h = tt
  purge-AllBounded now ((a, conns) ∷ m) h =
      ground (arith, length-retain-le (is_recent now) conns, purge-AllBounded now m h.1)

module _ {A S : Type 0} ⦃e : Eq A⦄ where
  lock-AllBounded :
      (now : ℕ) (pool : ConnPool A S)
      → AllBounded pool.idle.inner
      → AllBounded (lock (purge now) pool.idle) × AllBounded (lock (λ _. []) pool.idle)
  lock-AllBounded now pool h = elim (Bool-cases pool.idle.poisoned) [
    | inl p ↦ rw p (purge-AllBounded now pool.idle.inner h, tt)
    | inr p ↦ rw p (h, h)
  ]

  get_pooled-AllBounded :
      (probe : S → Probe) (now : ℕ) (addr : A) (pool : ConnPool A S)
      → AllBounded pool.idle.inner
      → AllBounded (get_pooled probe now addr pool).0.idle.inner
  unfolding get_pooled
  get_pooled-AllBounded probe now addr pool h =
      let m = lock (purge now) pool.idle in
      let locked : AllBounded m = (lock-AllBounded now pool h).0 in
      elim (Option-cases (lookup addr m)) [
        | inl e ↦ rw (e, get_pooled) locked
        | inr (conns, e) ↦
            let bounded : IsBounded conns =
              rw e at (lookup-All IsBounded addr m [] locked (omega arith)) in
            rw (e, get_pooled)
              (insert-All IsBounded addr _ m (reuse-IsBounded probe now conns bounded) locked)
      ]

  get-eq-get_pooled :
      (probe : S → Probe) (now : ℕ) (connected : Option S) (addr : A) (pool : ConnPool A S)
      → (get probe now connected addr pool).0 ≡ (get_pooled probe now addr pool).0
  unfolding get
  get-eq-get_pooled probe now connected addr pool = ground arith

  put-AllBounded :
      (now : ℕ) (addr : A) (stream : S) (pool : ConnPool A S)
      → AllBounded pool.idle.inner
      → AllBounded (put now addr stream pool).idle.inner
  unfolding put
  put-AllBounded now addr stream pool h =
      let m = lock (λ _. []) pool.idle in
      insert-All IsBounded addr _ m
        (push-IsBounded _ _ (
          le_trans (length-retain-le _ (unwrap_or (lookup addr m) []))
            (lookup-All IsBounded addr m [] (lock-AllBounded now pool h).1 (omega arith))))
        (lock-AllBounded now pool h).1

  -- No host ever has more than 8 idle connections: neither taking a connection, pooled or new, nor giving one
  -- back breaks that, also after a panic that poisoned the lock.
  pub pool-AllBounded :
      (probe : S → Probe) (now : ℕ) (connected : Option S) (addr : A) (stream : S)
      (pool : ConnPool A S)
      → AllBounded pool.idle.inner
      → AllBounded (get probe now connected addr pool).0.idle.inner
        × AllBounded (put now addr stream pool).idle.inner
  pool-AllBounded probe now connected addr stream pool h = (
    rw (get-eq-get_pooled probe now connected addr pool)
        (get_pooled-AllBounded probe now addr pool h),
    put-AllBounded now addr stream pool h,
  )
