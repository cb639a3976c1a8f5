-- ===== src/Modules/LoadBalancer/Choice.antt =====
-- The backend that a request gets.
use modular_rust_reverse_pro.Base.{
  ℕ, zero, suc, ◌+◌, ◌%◌, ◌^◌, ◌≤◌, ◌<◌, ◌≡◌, ◌≢◌, refl, inl, inr, Bool, true, false, none, some,
  List, [], ◌∷◌, Text, lit, text_eq, length, unwrap_or, arith, Bool-cases, nat_beq, nat_beq_iff,
  Option-cases, lookup-insert_self,
}
use modular_rust_reverse_pro.Metrics.{fetch_add}
use modular_rust_reverse_pro.Context.{Context, get, set}
use modular_rust_reverse_pro.Modules.LoadBalancer.{RoundRobin, backend, first_healthy, handle}

-- The backend at `k` places behind `start`, in the cyclic order.
abbrev pub nth : List Text → ℕ → ℕ → Text
nth bs start k = backend bs ((start + k) % length bs)

-- The places from `offset` up to `k` are down.
abbrev pub DownBetween : (Text → Bool) → List Text → ℕ → ℕ → ℕ → Type 0
DownBetween healthy bs start offset k =
    (j : ℕ) → offset ≤ j → j < k → healthy (nth bs start j) ≡ false

DownBetween-cons :
    (healthy : Text → Bool) (bs : List Text) (start offset k : ℕ)
    → healthy (nth bs start offset) ≡ false
    → DownBetween healthy bs start (offset + 1) k
    → DownBetween healthy bs start offset k
DownBetween-cons healthy bs start offset k down rest j ge lt =
    elim (Bool-cases (nat_beq j offset)) [
      | inl same ↦ rw ((nat_beq_iff j offset).0 same) down
      | inr other ↦ rest j (ground arith) lt
    ]

first_healthy-some :
    (healthy : Text → Bool) (bs : List Text) (start offset left : ℕ) (a : Text)
    → first_healthy healthy bs start offset left ≡ some a
    → (k : ℕ) × (k < offset + left)
      × (a ≡ nth bs start k)
      × (healthy a ≡ true)
      × DownBetween healthy bs start offset k
unfolding first_healthy
first_healthy-some healthy bs start offset zero a h = absurd (cc)
first_healthy-some healthy bs start offset (suc left) a h =
    elim (Bool-cases (healthy (nth bs start offset))) [
      | inl up ↦
          let e : a ≡ nth bs start offset = ground arith in
          (offset, omega arith, e, rw e up, λ j ge lt. absurd (omega arith))
      | inr down ↦
          let (k, lt, e, up, rest) =
            first_healthy-some healthy bs start (offset + 1) left a (ground arith) in
          (k, omega arith, e, up, DownBetween-cons healthy bs start offset k down rest)
    ]

first_healthy-none :
    (healthy : Text → Bool) (bs : List Text) (start offset left : ℕ)
    → first_healthy healthy bs start offset left ≡ none
    → DownBetween healthy bs start offset (offset + left)
unfolding first_healthy
first_healthy-none healthy bs start offset zero h = λ j ge lt. absurd (omega arith)
first_healthy-none healthy bs start offset (suc left) h =
    let down : healthy (nth bs start offset) ≡ false = ground arith in
    let rest = first_healthy-none healthy bs start (offset + 1) left (ground arith) in
    λ j ge lt.
      DownBetween-cons healthy bs start offset (offset + suc left) down
        (λ i gi li. rest i gi (omega arith)) j ge lt

-- A choice among the backends `bs` that began at `start`: a healthy one, before which in the cyclic order all are
-- down; or, where all are down, the one at `start`.
pub data IsChoice (healthy : Text → Bool) (bs : List Text) (start : ℕ) (a : Text) : Type 0 where
  up :
      (k : ℕ)
      → k < length bs
      → a ≡ nth bs start k
      → healthy a ≡ true
      → DownBetween healthy bs start 0 k
      → IsChoice healthy bs start a
  all_down :
      a ≡ backend bs start
      → DownBetween healthy bs start 0 (length bs)
      → IsChoice healthy bs start a

chosen :
    (healthy : Text → Bool) (bs : List Text) (start : ℕ)
    → IsChoice healthy bs start
        (unwrap_or (first_healthy healthy bs start 0 (length bs)) (backend bs start))
chosen healthy bs start = elim (Option-cases (first_healthy healthy bs start 0 (length bs))) [
  | inl e ↦ rw e (
      all_down refl
        (λ j ge lt. first_healthy-none healthy bs start 0 (length bs) e j ge (omega arith)))
  | inr (a, e) ↦
      let (k, lt, p, q, r) = first_healthy-some healthy bs start 0 (length bs) a e in
      rw e (up k (omega arith) p q r)
]

length-ne-zero : (bs : List Text) → bs ≢ [] → nat_beq (length bs) 0 ≡ false
length-ne-zero [] h = absurd (h refl)
length-ne-zero (b ∷ bs) h = ground arith

-- With at least one backend, a request gets one by the rule of `IsChoice`, beginning at the index modulo the
-- number of backends; the index then moves on by one (in 64 bits), so that the next request begins at the next
-- backend. The request goes on through the pipeline.
pub handle-IsChoice :
    (healthy : Text → Bool) (c : Context) (r : RoundRobin)
    → r.backends ≢ []
    → (a : Text) × (get (lit "_backend_addr") (handle healthy c r).1 ≡ some a)
      × IsChoice healthy r.backends (r.idx % length r.backends) a
      × ((handle healthy c r).0.idx ≡ (r.idx + 1) % 2 ^ 64)
      × ((handle healthy c r).2 ≡ none)
unfolding handle get set fetch_add
handle-IsChoice healthy c r ne =
    let bs = r.backends in
    let start = r.idx % length bs in
    let a = unwrap_or (first_healthy healthy bs start 0 (length bs)) (backend bs start) in
    let e = length-ne-zero bs ne in
    (
      a,
      rw (e, handle) (lookup-insert_self (lit "_backend_addr") a c.strings),
      chosen healthy bs start,
      rw (e, handle) refl,
      rw (e, handle) refl,
    )
