-- ===== src/Server/Workers.antt =====
-- The worker threads of src/server.rs: `ThreadPool`, its channel, `ConnGuard`, the accept loop of `run_plain`, and
-- the shutdown of the pool, in a server without TLS: the connections of HTTP/2, which `run_tls` adds to ACTIVE_CONNS
-- without a worker, have no step. One access to what the threads share is one step; `S` is the type of connections.
pub mod Conserving
pub mod Active
pub mod Leaving
pub mod Draining
use modular_rust_reverse_pro.Base.{
  ℕ, zero, suc, ◌+◌, ◌*◌, ◌-◌, ◌%◌, ◌^◌, ◌≡◌, Bool, true, false, Option, none, some, List, [], ◌∷◌,
  ◌++◌, ltb, leb, length, if◌then◌else◌,
}

-- Where a worker stands: it waits for a connection, has received one and has not counted it yet, handles one, or has
-- left its loop. A handler that panics ends as one that returns.
pub data Worker (S : Type 0) : Type 0 where
  waiting : Worker S
  received : S → Worker S
  serving : S → Worker S
  gone : Worker S

-- What the threads share. The channel holds at most `cap` connections, and is open as long as there is a sender. The
-- last three fields only record, in their order, what was put into the channel, taken from it, and finished.
pub record Shared (S : Type 0) : Type 0 where
  pub queue : List S
  pub cap : ℕ
  pub is_open : Bool
  pub active_conns : ℕ
  pub dispatched : List S
  pub taken : List S
  pub served : List S

pub record ThreadPool (S : Type 0) : Type 0 where
  pub shared : Shared S
  pub workers : List (Worker S)

module _ {S : Type 0} where
  all_waiting : ℕ → List (Worker S)
  all_waiting zero = []
  all_waiting (suc n) = waiting ∷ all_waiting n

  -- `ThreadPool::new`
  unfoldable pub new : ℕ → ThreadPool S
  unfolding all_waiting
  new size = record {
    shared = record {
      queue = [];
      cap = size * 2;
      is_open = true;
      active_conns = 0;
      dispatched = [];
      taken = [];
      served = [];
    };
    workers = all_waiting size;
  }

  -- `dispatch`: whether the connection got a place in the channel.
  unfoldable pub dispatch : S → Shared S → Shared S × Bool
  dispatch s t =
      if t.is_open
      then if ltb (length t.queue) t.cap
        then (record t { queue = t.queue ++ s ∷ []; dispatched = t.dispatched ++ s ∷ [] }, true)
        else (t, false)
      else (t, false)

  -- What `run_plain` does with an accepted connection: `false` means that it is rejected as overload.
  unfoldable pub accept : ℕ → S → Shared S → Shared S × Bool
  unfolding dispatch
  accept max_conns s t = if leb max_conns t.active_conns then (t, false) else dispatch s t

  -- `shutdown` drops the sender.
  unfoldable pub close : Shared S → Shared S
  close t = record t { is_open = false }

  -- A worker in `recv`: `none` means that it goes on waiting.
  unfoldable pub receive : Shared S → List S → Option (Worker S × Shared S)
  receive t [] = if t.is_open then none else some (gone, t)
  receive t (s ∷ queue) = some (received s, record t { queue = queue; taken = t.taken ++ s ∷ [] })

  -- A step of a worker: to receive, to make the guard, to finish and drop the guard.
  unfoldable pub work : Worker S → Shared S → Option (Worker S × Shared S)
  unfolding receive
  work waiting t = receive t t.queue
  work (received s) t = some (serving s, record t { active_conns = (t.active_conns + 1) % 2 ^ 64 })
  work (serving s) t = some (
    waiting,
    record t { active_conns = (t.active_conns + 2 ^ 64 - 1) % 2 ^ 64; served = t.served ++ s ∷ [] },
  )
  work gone t = none

  -- The listener accepts or rejects a connection, the pool is shut down, or one worker makes a step.
  pub data Step (max_conns : ℕ) : ThreadPool S → ThreadPool S → Type 0 where
    accepts :
        (s : S) (t : Shared S) (ws : List (Worker S))
        → Step max_conns
            (record { shared = t; workers = ws })
            (record { shared = (accept max_conns s t).0; workers = ws })
    closes :
        (t : Shared S) (ws : List (Worker S))
        → Step max_conns
            (record { shared = t; workers = ws })
            (record { shared = close t; workers = ws })
    works :
        (w w' : Worker S) (t t' : Shared S) (before after : List (Worker S))
        → work w t ≡ some (w', t')
        → Step max_conns
            (record { shared = t; workers = before ++ w ∷ after })
            (record { shared = t'; workers = before ++ w' ∷ after })

  pub data Reach (max_conns : ℕ) (p : ThreadPool S) : ThreadPool S → Type 0 where
    start : Reach max_conns p p
    next : {q r : ThreadPool S} → Reach max_conns p q → Step max_conns q r → Reach max_conns p r
