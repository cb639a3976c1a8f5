-- ===== src/Modules/RateLimiter/Bounds.antt =====
-- The bounds on the number of buckets.
use native.Mathlib.Nat.{le_trans}
use modular_rust_reverse_pro.Base.{
  ℕ, zero, suc, ◌-◌, ◌/◌, ◌≤◌, ◌<◌, ◌≡◌, Bool, true, List, [], ◌∷◌, Text, text_eq, leb, length, max,
  take, retain, length-retain-le, HashMap, lookup, remove, length-insert-le, length-remove-le,
  length-remove-found, All-lookup, All, arith, is_some, sort_by, sort_by-All, length-sort_by,
}
use modular_rust_reverse_pro.Sync.{lock}
use modular_rust_reverse_pro.Context.{Context}
use modular_rust_reverse_pro.Modules.RateLimiter.{
  Float, Bucket, RateLimit, handle, make_room, evict_oldest, remove_all, max_buckets, client_ip,
  stale_secs,
}

module _ (fl : Float) where
  length-remove_all :
      (es : List (Text × Bucket fl)) (m : HashMap Text (Bucket fl))
      → length (remove_all fl es m) ≤ length m
  unfolding remove_all
  length-remove_all [] m = omega arith
  length-remove_all ((k, b) ∷ es) m =
      omega (arith, length-remove_all es (remove k m), length-remove-le k m)

  -- The keys of the entries are keys of the map.
  abbrev KeysIn : HashMap Text (Bucket fl) → List (Text × Bucket fl) → Type 0
  KeysIn m es = All (λ e. is_some (lookup e.0 m) ≡ true) es

  remove_all-take :
      (n : ℕ) (es : List (Text × Bucket fl)) (m : HashMap Text (Bucket fl))
      → KeysIn m es
      → 0 < n
      → 0 < length es
      → length (remove_all fl (take n es) m) < length m
  unfolding remove_all
  remove_all-take zero es m ks h p = absurd (omega arith)
  remove_all-take (suc n) [] m ks h p = absurd (omega arith)
  remove_all-take (suc n) ((k, b) ∷ es) m ks h p =
      omega (arith, length-remove_all (take n es) (remove k m), length-remove-found k m ks.0)

  abbrev by_last : Text × Bucket fl → Text × Bucket fl → Bool
  by_last a b = leb a.1.last b.1.last

  evict_oldest-shorter :
      (m : HashMap Text (Bucket fl)) → 0 < length m → length (evict_oldest fl m) < length m
  unfolding evict_oldest
  evict_oldest-shorter m h =
      remove_all-take (max (length (sort_by by_last m) / 4) 1) (sort_by by_last m) m
        (sort_by-All by_last (λ e. is_some (lookup e.0 m) ≡ true) m (All-lookup m)) (omega arith)
        (omega (arith, length-sort_by by_last m))

  make_room-length :
      (now : ℕ) (m : HashMap Text (Bucket fl))
      → length m ≤ max_buckets
      → length (make_room fl now m) < max_buckets
  unfolding make_room
  make_room-length now m h =
      let kept = retain (λ e. fl.lt (fl.as_secs (now - e.1.last)) (fl.of_usize stale_secs)) m in
      ground (
        arith,
        evict_oldest-shorter kept,
        length-retain-le
            (λ (e : Text × Bucket fl). fl.lt (fl.as_secs (now - e.1.last)) (fl.of_usize stale_secs))
            m,
      )

  -- The buckets of all clients.
  abbrev pub bucket_count : RateLimit fl → ℕ
  bucket_count r = length r.buckets.inner

  lock-length : (r : RateLimit fl) → length (lock (λ _. []) r.buckets) ≤ bucket_count r
  lock-length r = ground arith

  -- The limiter never keeps more than 50,000 buckets, whatever the clock, the client and the arithmetic of
  -- `f64`, also after a panic that poisoned its lock.
  pub bucket_count-le :
      (now : ℕ) (c : Context) (r : RateLimit fl)
      → bucket_count r ≤ max_buckets
      → bucket_count (handle fl now c r).0 ≤ max_buckets
  unfolding handle
  bucket_count-le now c r h =
      let m = lock (λ _. []) r.buckets in
      le_trans (length-insert-le (client_ip c) _ (make_room fl now m))
        (omega (arith, make_room-length now m (omega (arith, lock-length r))))
