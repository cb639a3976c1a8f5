-- ===== src/Server/Workers/Active.antt =====
-- What `ACTIVE_CONNS` counts, and what it does not bound.
use modular_rust_reverse_pro.Base.{
  ℕ, zero, suc, ◌≡◌, ◌≤◌, ◌<◌, ◌+◌, ◌^◌, refl, sym, ◌∙◌, subst, Option, none, some, List, [], ◌∷◌,
  ◌++◌, length, length-append, ltb, arith, inl, inr, Bool-cases, ◌&&◌,
}
use modular_rust_reverse_pro.Server.Workers.{
  Worker, waiting, received, serving, gone, Shared, ThreadPool, new, all_waiting, dispatch, accept,
  close, receive, work, Step, accepts, closes, works, Reach, start, next,
}

module _ {S : Type 0} where
  abbrev pub is_serving : Worker S → ℕ
  is_serving (serving s) = 1
  is_serving _ = 0

  abbrev pub serving_count : List (Worker S) → ℕ
  serving_count [] = 0
  serving_count (w ∷ ws) = is_serving w + serving_count ws

  serving_count-append :
      (xs ys : List (Worker S)) → serving_count (xs ++ ys) ≡ serving_count xs + serving_count ys
  serving_count-append [] ys = omega arith
  serving_count-append (x ∷ xs) ys = omega (arith, serving_count-append xs ys)

  serving_count-le : (ws : List (Worker S)) → serving_count ws ≤ length ws
  serving_count-le [] = omega arith
  serving_count-le (waiting ∷ ws) = omega (arith, serving_count-le ws)
  serving_count-le (received s ∷ ws) = omega (arith, serving_count-le ws)
  serving_count-le (serving s ∷ ws) = omega (arith, serving_count-le ws)
  serving_count-le (gone ∷ ws) = omega (arith, serving_count-le ws)

  pub record IsCounted (size : ℕ) (p : ThreadPool S) : Type 0 where
    pub active : p.shared.active_conns ≡ serving_count p.workers
    pub staff : length p.workers ≡ size

  abbrev CountsStep : ℕ → List (Worker S) → List (Worker S) → Option (Worker S × Shared S) → Type 0
  CountsStep size before after none = Unit {0}
  CountsStep size before after (some (w, t)) =
      IsCounted size (record { shared = t; workers = before ++ w ∷ after })

  module _ (size : ℕ) (small : size < 2 ^ 64) (before after : List (Worker S)) where
    length_replaced :
        (w w' : Worker S) → length (before ++ w' ∷ after) ≡ length (before ++ w ∷ after)
    length_replaced w w' =
        omega (arith, length-append before (w ∷ after), length-append before (w' ∷ after))

    receive-CountsStep :
        (t : Shared S) (q : List S)
        → IsCounted size (record { shared = t; workers = before ++ waiting ∷ after })
        → CountsStep size before after (receive t q)
    unfolding receive
    receive-CountsStep t [] c = elim (Bool-cases t.is_open) [
      | inl still ↦ rw (still, CountsStep) tt
      | inr closed ↦
          rw (closed, CountsStep)
            (record {
              active = omega (
                arith,
                c.active,
                serving_count-append before (gone ∷ after),
                serving_count-append before (waiting ∷ after),
              );
              staff = omega (arith, c.staff, length_replaced waiting gone);
            })
    ]
    receive-CountsStep t (s ∷ q) c = record {
      active = omega (
        arith,
        c.active,
        serving_count-append before (received s ∷ after),
        serving_count-append before (waiting ∷ after),
      );
      staff = omega (arith, c.staff, length_replaced waiting (received s));
    }

    work-CountsStep :
        (w : Worker S) (t : Shared S)
        → IsCounted size (record { shared = t; workers = before ++ w ∷ after })
        → CountsStep size before after (work w t)
    unfolding work
    work-CountsStep waiting t c = receive-CountsStep t t.queue c
    work-CountsStep (received s) t c = record {
      active = omega (
        arith,
        c.active,
        c.staff,
        serving_count-append before (serving s ∷ after),
        serving_count-append before (received s ∷ after),
        serving_count-le (before ++ serving s ∷ after),
        length_replaced (received s) (serving s),
      );
      staff = omega (arith, c.staff, length_replaced (received s) (serving s));
    }
    work-CountsStep (serving s) t c = record {
      active = omega (
        arith,
        c.active,
        c.staff,
        serving_count-append before (serving s ∷ after),
        serving_count-append before (waiting ∷ after),
        serving_count-le (before ++ serving s ∷ after),
      );
      staff = omega (arith, c.staff, length_replaced (serving s) waiting);
    }
    work-CountsStep gone t c = tt

  accept-active :
      (max_conns : ℕ) (s : S) (t : Shared S)
      → (accept max_conns s t).0.active_conns ≡ t.active_conns
  unfolding accept
  accept-active max_conns s t = ground arith

  Step-IsCounted :
      (max_conns size : ℕ) {p q : ThreadPool S}
      → size < 2 ^ 64
      → Step max_conns p q
      → IsCounted size p
      → IsCounted size q
  unfolding close
  Step-IsCounted max_conns size small (accepts s t ws) c = record {
    active = accept-active max_conns s t ∙ c.active;
    staff = c.staff;
  }
  Step-IsCounted max_conns size small (closes t ws) c = record {
    active = c.active;
    staff = c.staff;
  }
  Step-IsCounted max_conns size small (works w w' t t' before after e) c =
      subst (CountsStep size before after) e (work-CountsStep size small before after w t c)

all_waiting_counts :
    (S : Type 0) (n : ℕ)
    → (serving_count (all_waiting {S = S} n) ≡ 0) × (length {A = Worker S} (all_waiting n) ≡ n)
unfolding all_waiting
all_waiting_counts S zero = (refl, refl)
all_waiting_counts S (suc n) = omega (arith, all_waiting_counts S n)

module _ {S : Type 0} where
  -- In a server without TLS, where no connection is one of HTTP/2, at every moment the count of active connections is the number of workers that handle one, and so at most the number of
  -- workers, which never changes.
  pub Reach-IsCounted :
      (max_conns size : ℕ) {p : ThreadPool S}
      → size < 2 ^ 64
      → Reach max_conns (new size) p
      → IsCounted size p × (p.shared.active_conns ≤ size)
  unfolding new
  Reach-IsCounted max_conns size {p} small r =
      let c = counted r in (c, omega (arith, c.active, c.staff, serving_count-le p.workers))
    where
      counted : {q : ThreadPool S} → Reach max_conns (new size) q → IsCounted size q
      counted start = record {
        active = sym (all_waiting_counts S size).0;
        staff = (all_waiting_counts S size).1;
      }
      counted (next r' st) = Step-IsCounted max_conns size small st (counted r')

  unlimited :
      (max_conns size : ℕ) (s : S) (t : Shared S)
      → t.active_conns ≤ size
      → size < max_conns
      → accept max_conns s t ≡ dispatch s t
  unfolding accept
  unlimited max_conns size s t few more = ground arith

  -- In a server without TLS: if more connections are allowed than there are workers, then in every reachable state the limit rejects no connection: each one is
  -- left to the channel, which takes it exactly as long as it is open and holds fewer than its bound.
  pub accept-eq-dispatch :
      (max_conns size : ℕ) {p : ThreadPool S} (s : S)
      → size < 2 ^ 64
      → size < max_conns
      → Reach max_conns (new size) p
      → (accept max_conns s p.shared ≡ dispatch s p.shared)
        × ((dispatch s p.shared).1 ≡ (p.shared.is_open && ltb (length p.shared.queue) p.shared.cap))
  unfolding dispatch
  accept-eq-dispatch max_conns size {p} s small more r = (
    unlimited max_conns size s p.shared (Reach-IsCounted max_conns size small r).1 more,
    ground arith,
  )
