-- ===== src/Tests/Serving.antt =====
-- Small runs of the worker threads and of a connection of src/server.rs.
use modular_rust_reverse_pro.Base.{
  ℕ, ◌≡◌, ◌+◌, ◌<◌, ◌≤◌, refl, ◌⊎◌, All, arith, true, false, ◌&&◌, ltb, none, some, [], ◌∷◌, lit,
  pos,
}
use mathlib.Core.List.{Perm}
use modular_rust_reverse_pro.Metrics.{Metrics, zeroed}
use modular_rust_reverse_pro.Modules.Pipeline.{Module, Pipeline}
use modular_rust_reverse_pro.Http.Reader.{arrived}
use modular_rust_reverse_pro.Http.Response.{error}
use modular_rust_reverse_pro.Strings.Utf8.{into_bytes}
use modular_rust_reverse_pro.Server.Http1.{ClientStream, Served, handle_h1}
use modular_rust_reverse_pro.Server.Http1.Counting.{Counts, KeepsCounts, handle_h1-Counts}
use modular_rust_reverse_pro.Server.Workers.{
  waiting, received, serving, gone, Shared, ThreadPool, new, accept, dispatch, close, work, accepts,
  closes, works, Reach, start, next,
}
use modular_rust_reverse_pro.Server.Workers.Conserving.{IsConserved, Reach-IsConserved}
use modular_rust_reverse_pro.Server.Workers.Active.{IsCounted, Reach-IsCounted, accept-eq-dispatch}
use modular_rust_reverse_pro.Server.Workers.Draining.{
  CanStep, Runs, halt, go, measure, shutdown_drains,
}

-- Connection 7 is in the channel of a pool with one worker, which has not been woken.
abbrev one_queued : ThreadPool ℕ
one_queued = record {
  shared = record {
    queue = 7 ∷ [];
    cap = 2;
    is_open = true;
    active_conns = 0;
    dispatched = 7 ∷ [];
    taken = [];
    served = [];
  };
  workers = waiting ∷ [];
}

abbrev taken_up : ThreadPool ℕ
taken_up = record {
  shared = record {
    queue = [];
    cap = 2;
    is_open = true;
    active_conns = 0;
    dispatched = 7 ∷ [];
    taken = 7 ∷ [];
    served = [];
  };
  workers = received 7 ∷ [];
}

abbrev closed_early : ThreadPool ℕ
closed_early = record taken_up { shared = record taken_up.shared { is_open = false } }

abbrev in_work : Shared ℕ
in_work = record closed_early.shared { active_conns = 1 }

accept_test : (accept 5 7 (new 1).shared).0 ≡ one_queued.shared
unfolding accept dispatch new
accept_test = refl

reach_one : Reach 5 (new 1) one_queued
unfolding accept dispatch new
reach_one = next start (accepts 7 (new 1).shared (new 1).workers)

reach_taken : Reach 5 (new 1) taken_up
unfolding work
reach_taken =
    next reach_one (works waiting (received 7) one_queued.shared taken_up.shared [] [] refl)

reach_closed : Reach 5 (new 1) closed_early
unfolding close
reach_closed = next reach_taken (closes taken_up.shared taken_up.workers)

reach_serving : Reach 5 (new 1) (record { shared = in_work; workers = serving 7 ∷ [] })
unfolding work
reach_serving =
    next reach_closed (works (received 7) (serving 7) closed_early.shared in_work [] [] refl)

Reach-IsConserved_example : IsConserved one_queued
Reach-IsConserved_example = Reach-IsConserved 5 1 reach_one

Reach-IsCounted_example :
    IsCounted 1 (record { shared = in_work; workers = serving 7 ∷ [] }) × (1 ≤ 1)
Reach-IsCounted_example = Reach-IsCounted 5 1 (omega arith) reach_serving

accept-eq-dispatch_example :
    (accept 5 8 one_queued.shared ≡ dispatch 8 one_queued.shared)
    × ((dispatch 8 one_queued.shared).1 ≡ (true && ltb 1 2))
accept-eq-dispatch_example = accept-eq-dispatch 5 1 8 (omega arith) (omega arith) reach_one

-- The worker of the closed pool makes the first of its three steps.
abbrev first_step : ThreadPool ℕ
first_step = record { shared = in_work; workers = serving 7 ∷ [] }

Runs-once : Runs 1 closed_early first_step
unfolding work
Runs-once = go (received 7) (serving 7) closed_early.shared in_work [] [] refl (halt first_step)

shutdown_drains_example :
    (CanStep first_step × (1 < measure closed_early))
    ⊎ (All (λ w. w ≡ gone) first_step.workers
        × (1 ≡ measure closed_early)
        × Perm {A = ℕ} [] (7 ∷ []))
shutdown_drains_example =
    shutdown_drains 5 1 (omega arith) (omega arith) reach_closed refl Runs-once

-- A module that answers each request with its own status, and leaves the counters alone.
abbrev pub answering : Module (Metrics × ℕ)
answering = record {
  name = lit "health_check";
  overrides = [];
  handle = λ t. (t, some (error 204 (lit "No Content")));
  on_response = λ q a. record a { world = (a.world.0, a.world.1 + 1) };
}

pub answering-KeepsCounts : KeepsCounts answering
answering-KeepsCounts = record { on_handle = λ t. (refl, refl); on_answer = λ q a. (refl, refl) }

abbrev pub pipe : Pipeline (Metrics × ℕ) ℕ
pipe = record { mods = (pos 50, answering) ∷ []; raw = none; overridden = []; to = 30 }

-- The request arrives in two parts.
abbrev client : ClientStream
client = record {
  is_plain = true;
  peer_ip = some (lit "10.0.0.1");
  tls_version = none;
  events = arrived (into_bytes (lit "GET / HT")) ∷ arrived (into_bytes (lit "TP/1.1\r\n\r\n")) ∷ [];
}

abbrev served_once : Served ℕ
served_once = handle_h1 1_000 2_000 [] none 8 pipe client zeroed 0

handle_h1-Counts_example : Counts zeroed served_once
handle_h1-Counts_example =
    handle_h1-Counts 1_000 2_000 [] none pipe (answering-KeepsCounts, tt) 8 client zeroed 0
