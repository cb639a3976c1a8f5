-- ===== src/Script/Stdlib/Limiting/Growth.antt =====
-- The buckets of the limiter of the scripts.
use modular_rust_reverse_pro.Base.{
  ℕ, ◌+◌, ◌-◌, ◌≡◌, refl, true, Option, none, List, [], ◌∷◌, Text, lit, text_eq, All, arith, length,
  retain, lookup, length-insert_new, HashMap, unwrap_or,
}
use modular_rust_reverse_pro.Sync.{Mutex, lock}
use modular_rust_reverse_pro.Context.{Context, get}
use modular_rust_reverse_pro.Modules.RateLimiter.{Float, Bucket}
use modular_rust_reverse_pro.Script.Stdlib.Limiting.{std_rate_limit, sweep}

module _ (fl : Float) (parse_f64 : Text → Option fl.F) where
  open fl use {of_usize, as_secs, lt}

  -- All buckets were used in the last 300 seconds.
  abbrev pub AllRecent : ℕ → HashMap Text (Bucket fl) → Type 0
  AllRecent now m = All (λ e. lt (as_secs (now - e.1.last)) (of_usize 300) ≡ true) m

  retain_recent :
      (now : ℕ) (m : HashMap Text (Bucket fl))
      → AllRecent now m
      → retain (λ e. lt (as_secs (now - e.1.last)) (of_usize 300)) m ≡ m
  retain_recent now [] h = refl
  retain_recent now (e ∷ m) h = rw (h.0, retain_recent now m h.1) refl

  sweep_recent :
      (now : ℕ) (m : HashMap Text (Bucket fl)) → AllRecent now m → sweep fl parse_f64 now m ≡ m
  unfolding sweep
  sweep_recent now m h = ground (arith, retain_recent now m h)

  lock_same : (m : Mutex (HashMap Text (Bucket fl))) → lock (λ a. a) m ≡ m.inner
  lock_same m = ground arith

  -- As long as all buckets were used in the last 300 seconds, each new client adds one, however many there are.
  pub std_rate_limit-grows :
      (now : ℕ) (args : List Text) (ctx : Context) (bs : Mutex (HashMap Text (Bucket fl)))
      → AllRecent now bs.inner
      → lookup (unwrap_or (get (lit "_client_ip") ctx) (lit "?")) bs.inner ≡ none
      → length (std_rate_limit fl parse_f64 now args ctx bs).0.inner ≡ length bs.inner + 1
  unfolding std_rate_limit
  std_rate_limit-grows now args ctx bs recent new =
      rw (lock_same bs, sweep_recent now bs.inner recent) (length-insert_new _ _ bs.inner new)
