-- ===== src/Server/Workers/Leaving.antt =====
-- A worker leaves its loop only when no connection is left.
use modular_rust_reverse_pro.Base.{
  ℕ, zero, suc, ◌≡◌, ◌≢◌, ◌+◌, ◌-◌, ◌%◌, ◌^◌, refl, subst, false, Option, none, some, List, [], ◌∷◌,
  ◌++◌, All, arith, inl, inr, ◌⊎◌, Bool-cases,
}
use modular_rust_reverse_pro.Server.Workers.{
  Worker, waiting, received, serving, gone, Shared, ThreadPool, new, all_waiting, accept, close,
  receive, work, accepts, closes, works, Reach, start, next,
}

all_waiting_left : (S : Type 0) (n : ℕ) → All (λ (w : Worker S). w ≢ gone) (all_waiting n)
unfolding all_waiting
all_waiting_left S zero = tt
all_waiting_left S (suc n) = ((λ h. cc), all_waiting_left S n)

module _ {S : Type 0} where
  -- A worker leaves only when the channel is closed and empty.
  abbrev pub Empties : Shared S → Type 0
  Empties t = (t.is_open ≡ false) × (t.queue ≡ [])

  abbrev pub IsOrderly : ThreadPool S → Type 0
  IsOrderly p = All (λ w. w ≢ gone) p.workers ⊎ Empties p.shared

  All-replace :
      (before after : List (Worker S)) (w w' : Worker S)
      → w' ≢ gone
      → All (λ v. v ≢ gone) (before ++ w ∷ after)
      → All (λ v. v ≢ gone) (before ++ w' ∷ after)
  All-replace [] after w w' h all = (h, all.1)
  All-replace (b ∷ before) after w w' h all = (all.0, All-replace before after w w' h all.1)

  abbrev Orders : List (Worker S) → List (Worker S) → Option (Worker S × Shared S) → Type 0
  Orders before after none = Unit {0}
  Orders before after (some (w, t)) =
      IsOrderly (record { shared = t; workers = before ++ w ∷ after })

  module _ (before after : List (Worker S)) where
    replaced :
        (w w' : Worker S) (t t' : Shared S)
        → w' ≢ gone
        → (Empties t → Empties t')
        → IsOrderly (record { shared = t; workers = before ++ w ∷ after })
        → IsOrderly (record { shared = t'; workers = before ++ w' ∷ after })
    replaced w w' t t' h k (inl all) = inl (All-replace before after w w' h all)
    replaced w w' t t' h k (inr e) = inr (k e)

    receive-Orders :
        (t : Shared S) (q : List S)
        → t.queue ≡ q
        → IsOrderly (record { shared = t; workers = before ++ waiting ∷ after })
        → Orders before after (receive t q)
    unfolding receive
    receive-Orders t [] e o = elim (Bool-cases t.is_open) [
      | inl still ↦ rw (still, Orders) tt
      | inr closed ↦ rw (closed, Orders) (inr (refl, e))
    ]
    receive-Orders t (s ∷ q) e o =
        replaced waiting (received s) t (record t { queue = q; taken = t.taken ++ s ∷ [] })
          (λ h. cc) (λ h. absurd (cc (h.1, e))) o

    work-Orders :
        (w : Worker S) (t : Shared S)
        → IsOrderly (record { shared = t; workers = before ++ w ∷ after })
        → Orders before after (work w t)
    unfolding work
    work-Orders waiting t o = receive-Orders t t.queue refl o
    work-Orders (received s) t o =
        replaced (received s) (serving s) t
          (record t { active_conns = (t.active_conns + 1) % 2 ^ 64 }) (λ h. cc) (λ h. h) o
    work-Orders (serving s) t o =
        replaced (serving s) waiting t
          (record t {
            active_conns = (t.active_conns + 2 ^ 64 - 1) % 2 ^ 64;
            served = t.served ++ s ∷ [];
          })
          (λ h. cc) (λ h. h) o
    work-Orders gone t o = tt

  accept-Empties :
      (max_conns : ℕ) (s : S) (t : Shared S) → Empties t → Empties (accept max_conns s t).0
  unfolding accept
  accept-Empties max_conns s t (closed, e) = ground arith

  pub Reach-IsOrderly :
      (max_conns size : ℕ) {p : ThreadPool S} → Reach max_conns (new size) p → IsOrderly p
  unfolding new close
  Reach-IsOrderly max_conns size start = inl (all_waiting_left S size)
  Reach-IsOrderly max_conns size (next r (accepts s t ws)) =
      elim (Reach-IsOrderly max_conns size r) [
        | inl all ↦ inl all
        | inr e ↦ inr (accept-Empties max_conns s t e)
      ]
  Reach-IsOrderly max_conns size (next r (closes t ws)) = elim (Reach-IsOrderly max_conns size r) [
    | inl all ↦ inl all
    | inr e ↦ inr (refl, e.1)
  ]
  Reach-IsOrderly max_conns size (next r (works w w' t t' before after e)) =
      subst (Orders before after) e
        (work-Orders before after w t (Reach-IsOrderly max_conns size r))
