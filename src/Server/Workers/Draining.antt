-- ===== src/Server/Workers/Draining.antt =====
-- After the sender is dropped the workers finish.
use mathlib.Core.List.Perm
use mathlib.Core.List.{Perm, append-nil, append_assoc}
use modular_rust_reverse_pro.Base.{
  ℕ, suc, ◌≡◌, ◌<◌, ◌+◌, ◌*◌, ◌-◌, ◌%◌, ◌^◌, refl, sym, ap, ◌∙◌, subst, false, Option, none, some,
  List, [], ◌∷◌, ◌++◌, length, All, arith, inl, inr, ◌⊎◌,
}
use modular_rust_reverse_pro.Server.Workers.{
  Worker, waiting, received, serving, gone, Shared, ThreadPool, new, receive, work, works, Reach,
  next,
}
use modular_rust_reverse_pro.Server.Workers.Active.{Reach-IsCounted}
use modular_rust_reverse_pro.Server.Workers.Leaving.{Empties, IsOrderly, Reach-IsOrderly}
use modular_rust_reverse_pro.Server.Workers.Conserving.{held, IsConserved, Reach-IsConserved}

module _ {S : Type 0} where
  -- The steps that a worker has before it without a further connection, and the steps of the whole pool.
  abbrev pub steps_left : Worker S → ℕ
  steps_left waiting = 1
  steps_left (received s) = 3
  steps_left (serving s) = 2
  steps_left gone = 0

  abbrev pub all_steps_left : List (Worker S) → ℕ
  all_steps_left [] = 0
  all_steps_left (w ∷ ws) = steps_left w + all_steps_left ws

  abbrev pub measure : ThreadPool S → ℕ
  measure p = 3 * length p.shared.queue + all_steps_left p.workers

  -- Steps of the workers alone, in any order; `n` of them.
  pub data Runs : ℕ → ThreadPool S → ThreadPool S → Type 0 where
    halt : (p : ThreadPool S) → Runs 0 p p
    go :
        {n : ℕ} {q : ThreadPool S} (w w' : Worker S) (t t' : Shared S)
        (before after : List (Worker S))
        → work w t ≡ some (w', t')
        → Runs n (record { shared = t'; workers = before ++ w' ∷ after }) q
        → Runs (suc n) (record { shared = t; workers = before ++ w ∷ after }) q

  all_steps_left-append :
      (xs ys : List (Worker S)) → all_steps_left (xs ++ ys) ≡ all_steps_left xs + all_steps_left ys
  all_steps_left-append [] ys = omega arith
  all_steps_left-append (x ∷ xs) ys = omega (arith, all_steps_left-append xs ys)

  -- What a step of the worker `w` does in a closed pool.
  abbrev Lowers : Worker S → Shared S → Option (Worker S × Shared S) → Type 0
  Lowers w t none = w ≡ gone
  Lowers w t (some (w', t')) =
      (t'.is_open ≡ false)
      × (3 * length t.queue + steps_left w ≡ suc (3 * length t'.queue + steps_left w'))

  receive-Lowers :
      (t : Shared S) (q : List S) → t.is_open ≡ false → t.queue ≡ q → Lowers waiting t (receive t q)
  unfolding receive
  receive-Lowers t [] closed e = rw (closed, Lowers) (refl, omega arith)
  receive-Lowers t (s ∷ q) closed e = (closed, omega (arith, ap length e))

  work-Lowers : (w : Worker S) (t : Shared S) → t.is_open ≡ false → Lowers w t (work w t)
  unfolding work
  work-Lowers waiting t closed = receive-Lowers t t.queue closed refl
  work-Lowers (received s) t closed = (closed, omega arith)
  work-Lowers (serving s) t closed = (closed, omega arith)
  work-Lowers gone t closed = refl

  Runs-measure :
      {n : ℕ} {p q : ThreadPool S}
      → Runs n p q
      → p.shared.is_open ≡ false
      → (q.shared.is_open ≡ false) × (measure p ≡ n + measure q)
  Runs-measure (halt p) closed = (closed, omega arith)
  Runs-measure (go w w' t t' before after e r) closed =
      let (closed', lowers) = subst (Lowers w t) e (work-Lowers w t closed) in
      let (end, rest) = Runs-measure r closed' in
      (
        end,
        omega (
          arith,
          lowers,
          rest,
          all_steps_left-append before (w ∷ after),
          all_steps_left-append before (w' ∷ after),
        ),
      )

  -- A worker can make a step.
  pub data CanStep (p : ThreadPool S) : Type 0 where
    can :
        (w w' : Worker S) (t' : Shared S) (before after : List (Worker S))
        → p.workers ≡ before ++ w ∷ after
        → work w p.shared ≡ some (w', t')
        → CanStep p

  CanStep-measure : (p : ThreadPool S) → p.shared.is_open ≡ false → CanStep p → 0 < measure p
  CanStep-measure p closed (can w w' t' before after place e) =
      let (closed', lowers) = subst (Lowers w p.shared) e (work-Lowers w p.shared closed) in
      omega (arith, lowers, all_steps_left-append before (w ∷ after), ap all_steps_left place)

  -- What was taken and finished, when nothing is in hand and nothing waits, is all that was put in.
  finished :
      (p : ThreadPool S)
      → IsConserved p
      → held p.workers ≡ []
      → p.shared.queue ≡ []
      → Perm p.shared.served p.shared.dispatched
  finished p c idle empty =
      let kept = subst (λ l. Perm p.shared.taken (p.shared.served ++ l)) idle c.kept in
      let order = subst (λ l. p.shared.taken ++ l ≡ p.shared.dispatched) empty c.in_order in
      subst (λ l. Perm p.shared.served l) (sym (append-nil p.shared.taken) ∙ order)
        (Perm.symm (subst (λ l. Perm p.shared.taken l) (append-nil p.shared.served) kept))

  receive_closed :
      (t : Shared S) (q : List S)
      → t.is_open ≡ false
      → (r : Worker S × Shared S) × (receive t q ≡ some r)
  unfolding receive
  receive_closed t [] closed = ((gone, t), rw closed)
  receive_closed t (s ∷ q) closed =
      ((received s, record t { queue = q; taken = t.taken ++ s ∷ [] }), refl)

  -- In a closed pool each worker that is not gone can make a step.
  can_work :
      (w : Worker S) (t : Shared S)
      → t.is_open ≡ false
      → (w ≡ gone) ⊎ ((r : Worker S × Shared S) × (work w t ≡ some r))
  unfolding work
  can_work waiting t closed = inr (receive_closed t t.queue closed)
  can_work (received s) t closed =
      inr ((serving s, record t { active_conns = (t.active_conns + 1) % 2 ^ 64 }), refl)
  can_work (serving s) t closed = inr (
    (
      waiting,
      record t {
        active_conns = (t.active_conns + 2 ^ 64 - 1) % 2 ^ 64;
        served = t.served ++ s ∷ [];
      },
    ),
    refl,
  )
  can_work gone t closed = inl refl

  find_step :
      (t : Shared S) (before ws : List (Worker S))
      → t.is_open ≡ false
      → CanStep (record { shared = t; workers = before ++ ws }) ⊎ All (λ w. w ≡ gone) ws
  find_step t before [] closed = inr tt
  find_step t before (w ∷ ws) closed = elim (can_work w t closed) [
    | inr ((w', t'), e) ↦ inl (can w w' t' before ws refl e)
    | inl ended ↦ elim (find_step t (before ++ w ∷ []) ws closed) [
      | inl c ↦ inl (rw (append_assoc before (w ∷ []) ws) at c)
      | inr rest ↦ inr (ended, rest)
    ]
  ]

  AllGone-held :
      (ws : List (Worker S)) → All (λ w. w ≡ gone) ws → (held ws ≡ []) × (all_steps_left ws ≡ 0)
  AllGone-held [] all = (refl, refl)
  AllGone-held (w ∷ ws) (e, all) =
      let (h, z) = AllGone-held ws all in (rw e h, rw e (omega (arith, z)))

  Runs-Reach :
      {n max_conns : ℕ} {o p q : ThreadPool S}
      → Runs n p q
      → Reach max_conns o p
      → Reach max_conns o q
  Runs-Reach (halt p) r = r
  Runs-Reach (go w w' t t' before after e runs) r =
      Runs-Reach runs (next r (works w w' t t' before after e))

  AllGone-Empties :
      (t : Shared S) (ws : List (Worker S))
      → 0 < length ws
      → All (λ w. w ≡ gone) ws
      → IsOrderly (record { shared = t; workers = ws })
      → Empties t
  AllGone-Empties t [] h all o = elim h [ ]
  AllGone-Empties t (w ∷ ws) h all (inl left) = absurd (left.0 all.0)
  AllGone-Empties t (w ∷ ws) h all (inr e) = e

  -- A pool of at least one worker that was shut down in any reachable state, and then any `n` steps of its workers in any
  -- order: either the run can go on and has not reached the bound that the state at the shutdown gives, or every worker has left its loop,
  -- after as many steps as that bound, and exactly the connections that were ever put into the channel are finished, each once.
  pub shutdown_drains :
      (max_conns size : ℕ) {n : ℕ} {p q : ThreadPool S}
      → 0 < size
      → size < 2 ^ 64
      → Reach max_conns (new size) p
      → p.shared.is_open ≡ false
      → Runs n p q
      → (CanStep q × (n < measure p))
        ⊎ (All (λ w. w ≡ gone) q.workers
            × (n ≡ measure p)
            × Perm q.shared.served q.shared.dispatched)
  shutdown_drains max_conns size {n} {p} {q} pos small r closed runs =
      let at = Runs-Reach runs r in
      let (end, bound) = Runs-measure runs closed in
      let c = Reach-IsConserved max_conns size at in
      let staff = (Reach-IsCounted max_conns size small at).0.staff in
      elim (find_step q.shared [] q.workers end) [
        | inl s ↦ inl (s, omega (arith, bound, CanStep-measure q end s))
        | inr all ↦
            let e =
              (AllGone-Empties q.shared q.workers (omega (arith, staff)) all
                (Reach-IsOrderly max_conns size at)).1 in
            let (idle, none_left) = AllGone-held q.workers all in
            inr (all, omega (arith, bound, none_left, ap length e), finished q c idle e)
      ]
