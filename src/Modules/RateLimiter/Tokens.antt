-- ===== src/Modules/RateLimiter/Tokens.antt =====
-- The tokens of a bucket, for arithmetic of `f64` that obeys the laws below, and the rate that exact
-- arithmetic gives.
use modular_rust_reverse_pro.Base.{
  ℕ, ◌+◌, ◌-◌, ◌*◌, ◌/◌, ◌≤◌, ◌<◌, ◌≡◌, true, [], ◌∷◌, Text, text_eq, leb, ltb, leb→le, max, min,
  take, length, retain, HashMap, remove, insert-All, remove-All, lookup-All, All, All-retain, arith,
  Bool-cases, inl, inr, sort_by,
}
use modular_rust_reverse_pro.Sync.{lock}
use modular_rust_reverse_pro.Strings.Numbers.{u64_bound}
use modular_rust_reverse_pro.Context.{Context}
use modular_rust_reverse_pro.Modules.RateLimiter.{
  Float, Bucket, RateLimit, handle, make_room, evict_oldest, remove_all, refill, take_token,
  client_ip, stale_secs, max_buckets,
}

-- A `Duration` has 64 bits of seconds.
abbrev pub duration_bound : ℕ
duration_bound = u64_bound * 1_000_000_000

-- Laws of IEEE 754 that the limiter relies on; the values that occur are no NaN.
pub record FloatLaws (fl : Float) : Type 0 where
  pub secs_nonneg : (t : ℕ) → fl.le (fl.of_usize 0) (fl.as_secs t) ≡ true
  pub add_nonneg :
      (x y : fl.F)
      → fl.le (fl.of_usize 0) x ≡ true
      → fl.le (fl.of_usize 0) y ≡ true
      → fl.le (fl.of_usize 0) (fl.add x y) ≡ true
  -- Both factors are finite.
  pub mul_nonneg :
      (t n : ℕ)
      → t < duration_bound
      → n < u64_bound
      → fl.le (fl.of_usize 0) (fl.mul (fl.as_secs t) (fl.of_usize n)) ≡ true
  pub minimum_nonneg :
      (x y : fl.F)
      → fl.le (fl.of_usize 0) x ≡ true
      → fl.le (fl.of_usize 0) y ≡ true
      → fl.le (fl.of_usize 0) (fl.minimum x y) ≡ true
  pub minimum-le : (x : fl.F) (n : ℕ) → fl.le (fl.minimum x (fl.of_usize n)) (fl.of_usize n) ≡ true
  pub usize_mono : (n m : ℕ) → n ≤ m → fl.le (fl.of_usize n) (fl.of_usize m) ≡ true
  pub minimum_full :
      (x : fl.F) (n : ℕ)
      → fl.le (fl.of_usize 0) x ≡ true
      → fl.minimum (fl.add (fl.of_usize n) x) (fl.of_usize n) ≡ fl.of_usize n
  pub sub_nonneg :
      (x : fl.F)
      → fl.le (fl.of_usize 1) x ≡ true
      → fl.le (fl.of_usize 0) (fl.sub x (fl.of_usize 1)) ≡ true
  pub sub-le : (x y : fl.F) → fl.le x y ≡ true → fl.le (fl.sub x (fl.of_usize 1)) y ≡ true

module _ (fl : Float) (laws : FloatLaws fl) where
  -- The tokens lie between 0 and the burst.
  abbrev pub InRange : ℕ → Bucket fl → Type 0
  InRange burst b =
      (fl.le (fl.of_usize 0) b.tokens ≡ true) × (fl.le b.tokens (fl.of_usize burst) ≡ true)

  refill-InRange :
      (now rps burst : ℕ) (b : Bucket fl)
      → now < duration_bound
      → rps < u64_bound
      → InRange burst b
      → InRange burst (refill fl now rps burst b)
  unfolding refill
  refill-InRange now rps burst b early small h = (
    laws.minimum_nonneg _ (fl.of_usize burst)
        (laws.add_nonneg b.tokens _ h.0 (laws.mul_nonneg (now - b.last) rps (omega arith) small))
        (laws.usize_mono 0 burst (omega arith)),
    laws.minimum-le _ burst,
  )

  take_token-InRange :
      (burst : ℕ) (b : Bucket fl) → InRange burst b → InRange burst (take_token fl b).0
  unfolding take_token
  take_token-InRange burst b h = elim (Bool-cases (fl.le (fl.of_usize 1) b.tokens)) [
    | inl e ↦
        rw (e, take_token)
          (laws.sub_nonneg b.tokens e, laws.sub-le b.tokens (fl.of_usize burst) h.1)
    | inr e ↦ rw (e, take_token) h
  ]

  abbrev pub AllInRange : ℕ → HashMap Text (Bucket fl) → Type 0
  AllInRange burst m = All (λ (e : Text × Bucket fl). InRange burst e.1) m

  remove_all-AllInRange :
      (burst : ℕ) (es m : HashMap Text (Bucket fl))
      → AllInRange burst m
      → AllInRange burst (remove_all fl es m)
  unfolding remove_all
  remove_all-AllInRange burst [] m h = h
  remove_all-AllInRange burst ((k, b) ∷ es) m h =
      remove_all-AllInRange burst es (remove k m) (remove-All (InRange burst) k m h)

  evict_oldest-AllInRange :
      (burst : ℕ) (m : HashMap Text (Bucket fl))
      → AllInRange burst m
      → AllInRange burst (evict_oldest fl m)
  unfolding evict_oldest
  evict_oldest-AllInRange burst m h =
      let entries = sort_by (λ (a b : Text × Bucket fl). leb a.1.last b.1.last) m in
      remove_all-AllInRange burst (take (max (length entries / 4) 1) entries) m h

  make_room-AllInRange :
      (now burst : ℕ) (m : HashMap Text (Bucket fl))
      → AllInRange burst m
      → AllInRange burst (make_room fl now m)
  unfolding make_room
  make_room-AllInRange now burst m h =
      let fresh_enough =
        λ (e : Text × Bucket fl). fl.lt (fl.as_secs (now - e.1.last)) (fl.of_usize stale_secs) in
      let kept = retain fresh_enough m in
      let kept_ok : AllInRange burst kept =
        All-retain (λ (e : Text × Bucket fl). InRange burst e.1) fresh_enough m h in
      elim (Bool-cases (leb max_buckets (length m))) [
        | inr below ↦ rw (below, make_room) h
        | inl full ↦ elim (Bool-cases (leb max_buckets (length kept))) [
          | inr below ↦ rw (full, below, make_room) kept_ok
          | inl still ↦ rw (full, still, make_room) (evict_oldest-AllInRange burst kept kept_ok)
        ]
      ]

  lock-AllInRange :
      (r : RateLimit fl)
      → AllInRange r.burst r.buckets.inner
      → AllInRange r.burst (lock (λ _. []) r.buckets)
  lock-AllInRange r h = elim (Bool-cases r.buckets.poisoned) [ inl e ↦ rw e tt | inr e ↦ rw e h ]

  -- Every bucket keeps between 0 and `burst` tokens, whichever clients come at whatever times: the
  -- clock and the rate are numbers of 64 bits.
  pub handle-AllInRange :
      (now : ℕ) (c : Context) (r : RateLimit fl)
      → now < duration_bound
      → r.rps < u64_bound
      → AllInRange r.burst r.buckets.inner
      → AllInRange r.burst (handle fl now c r).0.buckets.inner
  unfolding handle
  handle-AllInRange now c r early small h =
      let m = make_room fl now (lock (λ _. []) r.buckets) in
      let room : AllInRange r.burst m = make_room-AllInRange now r.burst _ (lock-AllInRange r h) in
      let fresh : Bucket fl = record { tokens = fl.of_usize r.burst; last = now } in
      insert-All (InRange r.burst) (client_ip c) _ m
        (take_token-InRange r.burst _ (
          refill-InRange now r.rps r.burst _ early small (
            lookup-All (InRange r.burst) (client_ip c) m fresh room (
              laws.usize_mono 0 r.burst (omega arith),
              laws.usize_mono r.burst r.burst (omega arith),
            ))))
        room

-- Exact arithmetic in units of 10^-9: a witness that the laws can hold.
abbrev pub unit : ℕ
unit = 1_000_000_000

abbrev pub exact : Float
exact = record {
  F = ℕ;
  of_usize = λ n. n * unit;
  as_secs = λ t. t;
  add = λ x y. x + y;
  sub = λ x y. x - y;
  mul = λ x y. x * y / unit;
  minimum = λ x y. min x y;
  le = λ x y. leb x y;
  lt = λ x y. ltb x y;
}

exact_le : (x y : ℕ) → x ≤ y → leb x y ≡ true
exact_le x y h = ground arith

pub exact-FloatLaws : FloatLaws exact
exact-FloatLaws = record {
  usize_mono = λ n m h. exact_le (n * unit) (m * unit) (omega arith);
  minimum_full = λ x n h. omega arith;
  secs_nonneg = λ t. exact_le 0 t (omega arith);
  add_nonneg = λ x y h k. exact_le 0 (x + y) (omega arith);
  mul_nonneg = λ t n h k. exact_le 0 (t * (n * unit) / unit) (omega arith);
  minimum_nonneg = λ x y h k. exact_le 0 (min x y) (omega arith);
  minimum-le = λ x n. exact_le (min x (n * unit)) (n * unit) (omega arith);
  sub_nonneg = λ x h. exact_le 0 (x - 1 * unit) (omega arith);
  sub-le = λ x y h. exact_le (x - 1 * unit) y (omega (arith, leb→le x y h));
}
