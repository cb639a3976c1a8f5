-- ===== src/Modules/RateLimiter/Poisoned.antt =====
-- The limiter after a panic of a thread that held its lock.
use modular_rust_reverse_pro.Base.{ℕ, ◌-◌, ◌≤◌, ◌<◌, ◌≡◌, refl, true, none, text_eq, lookup, arith}
use modular_rust_reverse_pro.Context.{Context}
use modular_rust_reverse_pro.Modules.RateLimiter.{
  Float, RateLimit, handle, make_room, refill, take_token,
}
use modular_rust_reverse_pro.Modules.RateLimiter.Tokens.{FloatLaws}
use modular_rust_reverse_pro.Strings.Numbers.{u64_bound}

module _ (fl : Float) (laws : FloatLaws fl) where
  -- The lock stays poisoned, and each call clears the buckets: with a burst of at least one and a rate of 64 bits, every request of
  -- every client is let through from then on, and the same holds of the limiter that the call leaves.
  pub poisoned_admits :
      (now : ℕ) (c : Context) (r : RateLimit fl)
      → r.buckets.poisoned ≡ true
      → 1 ≤ r.burst
      → r.rps < u64_bound
      → ((handle fl now c r).1 ≡ none)
        × ((handle fl now c r).0.buckets.poisoned ≡ true)
        × ((handle fl now c r).0.burst ≡ r.burst)
  unfolding handle make_room refill take_token lookup
  poisoned_admits now c r p h small =
      rw
        (
          p,
          handle,
          laws.minimum_full _ r.burst (laws.mul_nonneg (now - now) r.rps (omega arith) small),
          laws.usize_mono 1 r.burst h,
        )
        (refl, refl, refl)
