-- ===== src/Pool/Reuse.antt =====
-- Which pooled connections are used again.
use mathlib.Core.List.{reverse}
use modular_rust_reverse_pro.Base.{
  ℕ, ◌-◌, ◌≤◌, ◌≡◌, refl, true, false, Option, some, List, [], ◌∷◌, ltb, lookup, Eq, arith,
  Bool-cases, Option-cases, ◌⊎◌, inl, inr,
}
use modular_rust_reverse_pro.Sync.{lock}
use modular_rust_reverse_pro.Pool.{
  Pooled, ConnPool, Probe, is_usable, would_block, socket_error, nonblocking_failed, end_of_stream,
  unexpected, get_pooled, get, pop_usable, purge, max_idle_age,
}

-- A connection of the list that is young enough, and whose probe found nothing to read, and the stream blocking
-- again.
pub data IsReusable {S : Type 0} (probe : S → Probe) (now : ℕ) (s : S)
    : List (Pooled S) → Type 0 where
  here :
      {p : Pooled S} {ps : List (Pooled S)}
      → s ≡ p.stream
      → now - p.created ≤ max_idle_age
      → probe s ≡ would_block true
      → IsReusable probe now s (p ∷ ps)
  there :
      {p : Pooled S} {ps : List (Pooled S)}
      → IsReusable probe now s ps
      → IsReusable probe now s (p ∷ ps)

is_usable-would_block : (p : Probe) → is_usable p ≡ true → p ≡ would_block true
unfolding is_usable
is_usable-would_block (would_block true) h = refl
is_usable-would_block (would_block false) h = absurd (cc)
is_usable-would_block socket_error h = absurd (cc)
is_usable-would_block nonblocking_failed h = absurd (cc)
is_usable-would_block end_of_stream h = absurd (cc)
is_usable-would_block unexpected h = absurd (cc)

module _ {S : Type 0} where
  pop_usable-IsReusable :
      (probe : S → Probe) (now : ℕ) (ps : List (Pooled S)) (s : S)
      → (pop_usable probe now ps).0 ≡ some s
      → IsReusable probe now s ps
  unfolding pop_usable
  pop_usable-IsReusable probe now [] s h = absurd (cc)
  pop_usable-IsReusable probe now (p ∷ ps) s h =
      elim (Bool-cases (ltb max_idle_age (now - p.created))) [
        | inl old ↦ there (pop_usable-IsReusable probe now ps s (ground arith))
        | inr young ↦ elim (Bool-cases (is_usable (probe p.stream))) [
          | inl good ↦
              let same : s ≡ p.stream = ground arith in
              here same (ground arith) (rw same (is_usable-would_block (probe p.stream) good))
          | inr bad ↦ there (pop_usable-IsReusable probe now ps s (ground arith))
        ]
      ]

module _ {A S : Type 0} ⦃e : Eq A⦄ where
  -- A pool hit gives a connection that was idle for this very address, that was pooled no more than 30 seconds
  -- ago, on which the attempt to read found nothing and would have blocked, and which was set to block again; without a hit the result is that of the attempt
  -- to connect.
  pub get-IsReusable :
      (probe : S → Probe) (now : ℕ) (connected : Option S) (addr : A) (pool : ConnPool A S)
      → (((get probe now connected addr pool).2 ≡ true)
          × (s : S) × (conns : List (Pooled S)) × ((get probe now connected addr pool).1 ≡ some s)
          × (lookup addr (lock (purge now) pool.idle) ≡ some conns)
          × IsReusable probe now s (reverse conns))
        ⊎ (((get probe now connected addr pool).2 ≡ false)
            × ((get probe now connected addr pool).1 ≡ connected))
  unfolding get get_pooled
  get-IsReusable probe now connected addr pool =
      elim (Option-cases (lookup addr (lock (purge now) pool.idle))) [
        | inl e ↦ inr (ground arith)
        | inr (conns, e) ↦ elim (Option-cases (pop_usable probe now (reverse conns)).0) [
          | inl n ↦ inr (ground arith)
          | inr (s, p) ↦ inl (
            ground arith,
            s,
            conns,
            ground arith,
            e,
            pop_usable-IsReusable probe now (reverse conns) s p,
          )
        ]
      ]
