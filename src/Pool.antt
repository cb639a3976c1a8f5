-- ===== src/Pool.antt =====
-- src/pool.rs: the pool of idle backend connections. A stream and an address are parameters; what the
-- operating system answers about a stream is an argument of the call. Times are in nanoseconds, and the clock
-- stands still during a call.
pub mod Bounds
pub mod Reuse
use modular_rust_reverse_pro.Base.{
  ℕ, zero, suc, ◌+◌, ◌-◌, ◌*◌, Bool, true, false, not, ◌&&◌, Option, none, some, List, [], ◌∷◌,
  ◌++◌, if◌then◌else◌, ltb, leb, length, is_empty, retain, HashMap, lookup, insert, Eq, unwrap_or,
  map,
}
use mathlib.Core.List.{reverse}
use modular_rust_reverse_pro.Sync.{Mutex, lock, store, unlocked}

abbrev pub max_idle_per_host : ℕ
max_idle_per_host = 8

abbrev pub max_idle_age : ℕ
max_idle_age = 30 * 1_000_000_000

-- What the checks of a pooled stream find, in their order.
pub data Probe : Type 0 where
  socket_error : Probe
  nonblocking_failed : Probe
  would_block : (blocking_restored : Bool) → Probe
  end_of_stream : Probe
  unexpected : Probe

-- A stream is used again only if it has nothing to read and blocks again.
unfoldable pub is_usable : Probe → Bool
is_usable (would_block restored) = restored
is_usable _ = false

pub record Pooled (S : Type 0) : Type 0 where
  pub stream : S
  pub created : ℕ

pub record ConnPool (A S : Type 0) : Type 0 where
  pub idle : Mutex (HashMap A (List (Pooled S)))

module _ {A S : Type 0} where
  -- `ConnPool::new`
  unfoldable pub new : ConnPool A S
  new = record { idle = unlocked [] }

module _ {S : Type 0} where
  is_recent : ℕ → Pooled S → Bool
  is_recent now p = leb p.created now && ltb (now - p.created) max_idle_age

module _ {A S : Type 0} where
  -- The repair of a poisoned map in `get`: stale connections and hosts without one go.
  unfoldable pub purge : ℕ → HashMap A (List (Pooled S)) → HashMap A (List (Pooled S))
  unfolding is_recent
  purge now m = retain (λ e. not (is_empty e.1)) (map (λ e. (e.0, retain (is_recent now) e.1)) m)

module _ {S : Type 0} where
  -- `while let Some(pooled) = conns.pop()`, over the connections with the last one first: the stream that
  -- passes, and the connections that are left.
  unfoldable pub pop_usable : (S → Probe) → ℕ → List (Pooled S) → Option S × List (Pooled S)
  pop_usable probe now [] = (none, [])
  pop_usable probe now (p ∷ ps) =
      let rest = pop_usable probe now ps in
      if ltb max_idle_age (now - p.created)
      then rest
      else if is_usable (probe p.stream)
      then (some p.stream, ps)
      else rest

module _ {A S : Type 0} ⦃e : Eq A⦄ where
  unfoldable pub get_pooled : (S → Probe) → ℕ → A → ConnPool A S → ConnPool A S × Option S
  unfolding pop_usable purge
  get_pooled probe now addr pool =
      let m = lock (purge now) pool.idle in
      elim (lookup addr m) [
        | none ↦ (record pool { idle = store m pool.idle }, none)
        | some conns ↦
            let (found, left) = pop_usable probe now (reverse conns) in
            (record pool { idle = store (insert addr (reverse left) m) pool.idle }, found)
      ]

  -- `get`: a pooled stream and a pool hit, or a pool miss and what `connect_timeout` gives.
  unfoldable pub get :
      (S → Probe) → ℕ → Option S → A → ConnPool A S → ConnPool A S × Option S × Bool
  unfolding get_pooled
  get probe now connected addr pool =
      let (pool', found) = get_pooled probe now addr pool in
      elim found [ none ↦ (pool', connected, false) | some s ↦ (pool', some s, true) ]

  unfoldable pub put : ℕ → A → S → ConnPool A S → ConnPool A S
  put now addr stream pool =
      let m = lock (λ _. []) pool.idle in
      let conns =
        retain (λ (p : Pooled S). ltb (now - p.created) max_idle_age)
          (unwrap_or (lookup addr m) []) in
      let kept =
        (if ltb (length conns) max_idle_per_host
          then conns ++ record { stream = stream; created = now } ∷ []
          else conns) in
      record pool { idle = store (insert addr kept m) pool.idle }

  unfoldable pub clear : ConnPool A S → ConnPool A S
  clear pool = record pool { idle = store [] pool.idle }
