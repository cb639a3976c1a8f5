-- ===== src/Script/Stdlib/Limiting.antt =====
-- `std_rate_limit` of src/script/stdlib.rs. The arithmetic of `f64` and the reading of such a number are parameters.
pub mod Growth
use modular_rust_reverse_pro.Base.{
  ℕ, ◌-◌, Option, none, some, ◌>>=◌, List, Text, lit, text_eq, if◌then◌else◌, ltb, length, retain,
  HashMap, lookup, insert, unwrap_or,
}
use modular_rust_reverse_pro.Sync.{Mutex, lock, store}
use modular_rust_reverse_pro.Context.{Context, get}
use modular_rust_reverse_pro.Http.Response.{HttpResponse}
use modular_rust_reverse_pro.Modules.RateLimiter.{Float, Bucket, take_token}
use modular_rust_reverse_pro.Script.Stdlib.Arguments.{arg}

module _ (fl : Float) (parse_f64 : Text → Option fl.F) where
  open fl use {F, of_usize, as_secs, add, mul, minimum, lt}

  unfoldable pub rate : List Text → F
  rate args = unwrap_or (arg args 0 >>= parse_f64) (of_usize 10)

  unfoldable pub burst : List Text → F
  unfolding rate
  burst args = unwrap_or (arg args 1 >>= parse_f64) (mul (rate args) (of_usize 2))

  -- Above 10,000 buckets those that were not used for 300 seconds go.
  unfoldable pub sweep : ℕ → HashMap Text (Bucket fl) → HashMap Text (Bucket fl)
  sweep now m =
      if ltb 10_000 (length m)
      then retain (λ e. lt (as_secs (now - e.1.last)) (of_usize 300)) m
      else m

  unfoldable pub std_rate_limit :
      ℕ
      → List Text
      → Context
      → Mutex (HashMap Text (Bucket fl))
      → Mutex (HashMap Text (Bucket fl)) × Option HttpResponse
  unfolding rate burst sweep take_token
  std_rate_limit now args ctx bs =
      let ip = unwrap_or (get (lit "_client_ip") ctx) (lit "?") in
      let m = sweep now (lock (λ a. a) bs) in
      let fresh : Bucket fl = record { tokens = burst args; last = now } in
      let b = unwrap_or (lookup ip m) fresh in
      let filled : Bucket fl = record {
        tokens = minimum (add b.tokens (mul (as_secs (now - b.last)) (rate args))) (burst args);
        last = now;
      } in
      let (b', resp) = take_token fl filled in (store (insert ip b' m) bs, resp)
