-- ===== src/Modules/RateLimiter.antt =====
-- src/modules/rate_limiter.rs: a token bucket for each client. Times are in nanoseconds, and the clock
-- stands still during a call. The arithmetic of `f64` is a parameter.
pub mod Bounds
pub mod Tokens
pub mod Poisoned
use modular_rust_reverse_pro.Base.{
  ℕ, zero, suc, ◌+◌, ◌-◌, ◌*◌, ◌/◌, Bool, true, false, Option, none, some, List, [], ◌∷◌, Text, lit,
  text_eq, if◌then◌else◌, leb, ltb, length, retain, take, map, max, HashMap, lookup, insert, remove,
  sort_by, unwrap_or,
}
use modular_rust_reverse_pro.Sync.{Mutex, lock, store, unlocked}
use modular_rust_reverse_pro.Http.Response.{HttpResponse, error}
use modular_rust_reverse_pro.Context.{Context, get}

-- `f64`, as far as the limiter computes with it.
pub record Float : Type 1 where
  pub F : Type 0
  -- `n as f64`
  pub of_usize : ℕ → F
  -- `as_secs_f64` of a duration in nanoseconds
  pub as_secs : ℕ → F
  pub add : F → F → F
  pub sub : F → F → F
  pub mul : F → F → F
  pub minimum : F → F → F
  pub le : F → F → Bool
  pub lt : F → F → Bool

abbrev pub max_buckets : ℕ
max_buckets = 50_000

abbrev pub stale_secs : ℕ
stale_secs = 300

-- `client_ip` of src/modules/helpers.rs
unfoldable pub client_ip : Context → Text
client_ip c = unwrap_or (get (lit "_client_ip") c) (lit "?")

module _ (fl : Float) where
  open fl use {F, of_usize, as_secs, add, sub, mul, minimum, le, lt}

  pub record Bucket : Type 0 where
    pub tokens : F
    pub last : ℕ

  pub record RateLimit : Type 0 where
    pub rps : ℕ
    pub burst : ℕ
    pub buckets : Mutex (HashMap Text Bucket)

  -- `for (k, _) in entries { bs.remove(&k); }`
  unfoldable pub remove_all : List (Text × Bucket) → HashMap Text Bucket → HashMap Text Bucket
  remove_all [] m = m
  remove_all ((k, b) ∷ es) m = remove_all es (remove k m)

  -- The quarter of the buckets that were used least recently goes, at least one.
  unfoldable pub evict_oldest : HashMap Text Bucket → HashMap Text Bucket
  unfolding remove_all
  evict_oldest m =
      let entries = sort_by (λ a b. leb a.1.last b.1.last) m in
      remove_all (take (max (length entries / 4) 1) entries) m

  unfoldable pub make_room : ℕ → HashMap Text Bucket → HashMap Text Bucket
  unfolding evict_oldest
  make_room now m =
      let kept = retain (λ e. lt (as_secs (now - e.1.last)) (of_usize stale_secs)) m in
      if leb max_buckets (length m)
      then if leb max_buckets (length kept) then evict_oldest kept else kept
      else m

  -- The bucket with the tokens of the time that has passed, no more than `burst`.
  unfoldable pub refill : ℕ → ℕ → ℕ → Bucket → Bucket
  refill now rps burst b = record b {
    tokens = minimum (add b.tokens (mul (as_secs (now - b.last)) (of_usize rps))) (of_usize burst);
    last = now;
  }

  -- A token is taken, if there is one.
  unfoldable pub take_token : Bucket → Bucket × Option HttpResponse
  take_token b =
      if le (of_usize 1) b.tokens
      then (record b { tokens = sub b.tokens (of_usize 1) }, none)
      else (b, some (error 429 (lit "Rate limit")))

  unfoldable pub handle : ℕ → Context → RateLimit → RateLimit × Option HttpResponse
  unfolding make_room refill take_token client_ip
  handle now c r =
      let ip = client_ip c in
      let m = make_room now (lock (λ _. []) r.buckets) in
      let fresh : Bucket = record { tokens = of_usize r.burst; last = now } in
      let (b, resp) = take_token (refill now r.rps r.burst (unwrap_or (lookup ip m) fresh)) in
      (record r { buckets = store (insert ip b m) r.buckets }, resp)
