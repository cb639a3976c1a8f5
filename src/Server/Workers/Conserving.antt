-- ===== src/Server/Workers/Conserving.antt =====
-- No connection that was put into the channel is lost or handled twice.
use mathlib.Core.List.{Perm, perm_middle, perm_append_singleton, append_assoc}
use mathlib.Core.List.Perm
use modular_rust_reverse_pro.Base.{
  ℕ, zero, suc, ◌≡◌, ◌≤◌, refl, sym, ap, ◌∙◌, subst, Bool, true, false, Option, none, some, List,
  [], ◌∷◌, ◌++◌, length, length-append, ltb, leb, arith, inl, inr, Bool-cases, if◌then◌else◌,
}
use modular_rust_reverse_pro.Server.Workers.{
  Worker, waiting, received, serving, gone, Shared, ThreadPool, new, all_waiting, dispatch, accept,
  close, receive, work, Step, accepts, closes, works, Reach, start, next,
}

module _ {S : Type 0} where
  -- The connection that a worker has in hand.
  abbrev pub in_hand : Worker S → List S
  in_hand waiting = []
  in_hand (received s) = s ∷ []
  in_hand (serving s) = s ∷ []
  in_hand gone = []

  abbrev pub held : List (Worker S) → List S
  held [] = []
  held (w ∷ ws) = in_hand w ++ held ws

  held-append : (xs ys : List (Worker S)) → held (xs ++ ys) ≡ held xs ++ held ys
  held-append [] ys = refl
  held-append (x ∷ xs) ys =
      ap (λ l. in_hand x ++ l) (held-append xs ys)
      ∙ sym (append_assoc (in_hand x) (held xs) (held ys))

  -- Adding to the end of the first list is adding to the other one, as far as the order does not count.
  perm_move :
      (s : S) (xs ys zs : List S) → Perm (xs ++ (ys ++ s ∷ zs)) ((xs ++ s ∷ []) ++ (ys ++ zs))
  perm_move s xs ys zs =
      rw (append_assoc xs (s ∷ []) (ys ++ zs)) (Perm.append_left xs (perm_middle ys zs))

  perm_push :
      (s : S) (xs ys zs : List S) → Perm ((xs ++ (ys ++ zs)) ++ s ∷ []) (xs ++ (ys ++ s ∷ zs))
  perm_push s xs ys zs =
      Perm.trans (perm_append_singleton s (xs ++ (ys ++ zs))) (
        Perm.symm
          (Perm.trans (Perm.append_left xs (perm_middle ys zs)) (perm_middle xs (ys ++ zs))))

  -- First in, first out; and what was taken is finished or in hand; the channel keeps its bound.
  pub record IsConserved (p : ThreadPool S) : Type 0 where
    pub in_order : p.shared.taken ++ p.shared.queue ≡ p.shared.dispatched
    pub kept : Perm p.shared.taken (p.shared.served ++ held p.workers)
    pub bounded : length p.shared.queue ≤ p.shared.cap

  abbrev Conserves : List (Worker S) → List (Worker S) → Option (Worker S × Shared S) → Type 0
  Conserves before after none = Unit {0}
  Conserves before after (some (w, t)) =
      IsConserved (record { shared = t; workers = before ++ w ∷ after })

  receive-Conserves :
      (t : Shared S) (queue : List S) (before after : List (Worker S))
      → t.queue ≡ queue
      → IsConserved (record { shared = t; workers = before ++ waiting ∷ after })
      → Conserves before after (receive t queue)
  unfolding receive
  receive-Conserves t [] before after e c = elim (Bool-cases t.is_open) [
    | inl open_still ↦ rw (open_still, Conserves) tt
    | inr closed ↦
        rw (closed, Conserves)
          (record {
            in_order = c.in_order;
            kept =
                rw (held-append before (gone ∷ after))
                  (rw (held-append before (waiting ∷ after)) at c.kept);
            bounded = c.bounded;
          })
  ]
  receive-Conserves t (s ∷ queue) before after e c = record {
    in_order = append_assoc t.taken (s ∷ []) queue ∙ (rw e at c.in_order);
    kept = rw (held-append before (received s ∷ after)) (
        Perm.trans
          (Perm.append_right (s ∷ []) (rw (held-append before (waiting ∷ after)) at c.kept))
          (perm_push s t.served (held before) (held after)));
    bounded = omega (arith, ap length e);
  }

  work-Conserves :
      (w : Worker S) (t : Shared S) (before after : List (Worker S))
      → IsConserved (record { shared = t; workers = before ++ w ∷ after })
      → Conserves before after (work w t)
  unfolding work
  work-Conserves waiting t before after c = receive-Conserves t t.queue before after refl c
  work-Conserves (received s) t before after c = record {
    in_order = c.in_order;
    kept =
        rw (held-append before (serving s ∷ after))
          (rw (held-append before (received s ∷ after)) at c.kept);
    bounded = c.bounded;
  }
  work-Conserves (serving s) t before after c = record {
    in_order = c.in_order;
    kept = rw (held-append before (waiting ∷ after)) (
        Perm.trans (rw (held-append before (serving s ∷ after)) at c.kept)
          (perm_move s t.served (held before) (held after)));
    bounded = c.bounded;
  }
  work-Conserves gone t before after c = tt

  abbrev ConservedWith : List (Worker S) → Shared S × Bool → Type 0
  ConservedWith ws r = IsConserved (record { shared = r.0; workers = ws })

  if-ConservedWith :
      (ws : List (Worker S)) (b : Bool) (x y : Shared S × Bool)
      → (b ≡ true → ConservedWith ws x)
      → ConservedWith ws y
      → ConservedWith ws (if b then x else y)
  if-ConservedWith ws true x y f g = f refl
  if-ConservedWith ws false x y f g = g

  dispatch-IsConserved :
      (s : S) (t : Shared S) (ws : List (Worker S))
      → IsConserved (record { shared = t; workers = ws })
      → ConservedWith ws (dispatch s t)
  unfolding dispatch
  dispatch-IsConserved s t ws c =
      let put = record t { queue = t.queue ++ s ∷ []; dispatched = t.dispatched ++ s ∷ [] } in
      let room = ltb (length t.queue) t.cap in
      if-ConservedWith ws t.is_open (if room then (put, true) else (t, false)) (t, false)
        (λ still.
          if-ConservedWith ws room (put, true) (t, false)
            (λ fits. record {
              in_order =
                  sym (append_assoc t.taken t.queue (s ∷ [])) ∙ ap (λ l. l ++ s ∷ []) c.in_order;
              kept = c.kept;
              bounded = ground (arith, length-append t.queue (s ∷ []));
            })
            c)
        c

  accept-IsConserved :
      (max_conns : ℕ) (s : S) (t : Shared S) (ws : List (Worker S))
      → IsConserved (record { shared = t; workers = ws })
      → ConservedWith ws (accept max_conns s t)
  unfolding accept
  accept-IsConserved max_conns s t ws c =
      if-ConservedWith ws (leb max_conns t.active_conns) (t, false) (dispatch s t) (λ full. c)
        (dispatch-IsConserved s t ws c)

  Step-IsConserved :
      (max_conns : ℕ) {p q : ThreadPool S} → Step max_conns p q → IsConserved p → IsConserved q
  unfolding close
  Step-IsConserved max_conns (accepts s t ws) c = accept-IsConserved max_conns s t ws c
  Step-IsConserved max_conns (closes t ws) c = record {
    in_order = c.in_order;
    kept = c.kept;
    bounded = c.bounded;
  }
  Step-IsConserved max_conns (works w w' t t' before after e) c =
      subst (Conserves before after) e (work-Conserves w t before after c)

  held-all_waiting : (n : ℕ) → held (all_waiting n) ≡ []
  unfolding all_waiting
  held-all_waiting zero = refl
  held-all_waiting (suc n) = held-all_waiting n

  new-IsConserved : (size : ℕ) → IsConserved (new size)
  unfolding new
  new-IsConserved size = record {
    in_order = refl;
    kept = rw (held-all_waiting size) (Perm.refl []);
    bounded = omega arith;
  }

  -- Whatever the listener and the workers do, in whichever order, and also after the shutdown: the workers take the connections in the
  -- order in which they were put into the channel; each one that was taken is finished or in the hand of one worker, once;
  -- and no more wait than the channel may hold.
  pub Reach-IsConserved :
      (max_conns size : ℕ) {p : ThreadPool S} → Reach max_conns (new size) p → IsConserved p
  Reach-IsConserved max_conns size start = new-IsConserved size
  Reach-IsConserved max_conns size (next r st) =
      Step-IsConserved max_conns st (Reach-IsConserved max_conns size r)
