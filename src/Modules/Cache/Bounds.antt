-- ===== src/Modules/Cache/Bounds.antt =====
-- The size of the cache.
use modular_rust_reverse_pro.Base.{
  ℕ, zero, suc, ◌+◌, ◌*◌, ◌≤◌, ◌<◌, ◌≡◌, refl, ◌⊎◌, inl, inr, true, Option, none, some, [], ◌∷◌,
  Text, text_eq, text_beq_iff, length, length-retain-le, HashMap, lookup, remove, arith,
  length-insert-le, length-remove-le, length-remove-lt, Bool-cases, ltb, is_some,
}
use modular_rust_reverse_pro.Http.Request.{HttpRequest}
use modular_rust_reverse_pro.Http.Response.{HttpResponse}
use modular_rust_reverse_pro.Sync.{lock}
use modular_rust_reverse_pro.Modules.Cache.{
  Cache, Entry, second, handle, on_response, evict, oldest, oldest_from, evict_expired,
}

-- The key is that of an entry, or the one that the search began with.
oldest_from-cases :
    (k : Text) (exp : ℕ) (m : HashMap Text Entry)
    → (oldest_from k exp m ≡ k) ⊎ (is_some (lookup (oldest_from k exp m) m) ≡ true)
unfolding oldest_from lookup
oldest_from-cases k exp [] = inl refl
oldest_from-cases k exp ((j, e) ∷ m) = elim (Bool-cases (ltb e.exp exp)) [
  | inl new ↦ ground (arith, oldest_from-cases j e.exp m, text_beq_iff j (oldest_from j e.exp m))
  | inr old ↦ ground (arith, oldest_from-cases k exp m, text_beq_iff j (oldest_from k exp m))
]

oldest-lookup :
    (k : Text) (e : Entry) (m : HashMap Text Entry)
    → is_some (lookup (oldest_from k e.exp m) ((k, e) ∷ m)) ≡ true
unfolding lookup
oldest-lookup k e m =
    ground (arith, oldest_from-cases k e.exp m, text_beq_iff k (oldest_from k e.exp m))

length-remove-oldest :
    (k : Text) (e : Entry) (m : HashMap Text Entry)
    → length (remove (oldest_from k e.exp m) ((k, e) ∷ m)) ≤ length m
length-remove-oldest k e m = go (lookup (oldest_from k e.exp m) ((k, e) ∷ m)) refl
  where
    go :
        (o : Option Entry)
        → lookup (oldest_from k e.exp m) ((k, e) ∷ m) ≡ o
        → length (remove (oldest_from k e.exp m) ((k, e) ∷ m)) ≤ length m
    go none h = absurd (cc (h, oldest-lookup k e m))
    go (some v) h = omega (arith, length-remove-lt (oldest_from k e.exp m) ((k, e) ∷ m) v h)

-- With as much fuel as there are entries the loop ends by its test or with an empty map.
evict-length :
    (fuel max : ℕ) (m : HashMap Text Entry)
    → length m ≤ fuel
    → 0 < max
    → length (evict fuel max m) < max
unfolding evict oldest
evict-length zero max [] h p = p
evict-length zero max (x ∷ m) h p = absurd (omega arith)
evict-length (suc fuel) max [] h p = ground arith
evict-length (suc fuel) max ((k, e) ∷ m) h p =
    let shorter = length-remove-oldest k e m in
    ground
      (arith, evict-length fuel max (remove (oldest_from k e.exp m) ((k, e) ∷ m)) (omega arith) p)

-- The number of entries.
abbrev pub size : Cache → ℕ
size c = length c.cache.inner

handle-size : (now : ℕ) (r : HttpRequest) (c : Cache) → size (handle now r c).0 ≤ size c
unfolding handle
handle-size now r c = ground (arith, length-remove-le r.path c.cache.inner)

on_response-size :
    (now : ℕ) (r : HttpRequest) (resp : HttpResponse) (c : Cache)
    → 0 < c.max
    → size c ≤ c.max
    → size (on_response now r resp c) ≤ c.max
unfolding on_response
on_response-size now r resp c p h =
    let m = lock (λ _. []) c.cache in
    let entry : Entry = record { resp = resp; exp = now + c.ttl * second } in
    ground (
      arith,
      evict-length (length m) c.max m (omega arith) p,
      length-insert-le r.path entry (evict (length m) c.max m),
    )

evict_expired-size : (now : ℕ) (c : Cache) → size (evict_expired now c) ≤ size c
unfolding evict_expired
evict_expired-size now c =
    ground (arith, length-retain-le (λ (e : Text × Entry). ltb now e.1.exp) c.cache.inner)

-- A cache with room for at least one entry that holds no more than `max_size` entries is not brought above that by a
-- request, a response, or the eviction thread, also after a panic that poisoned its lock. The thread that fills the
-- cache at the start, `warm`, has no such bound and is left out.
pub size-le-max :
    (now : ℕ) (r : HttpRequest) (resp : HttpResponse) (c : Cache)
    → 0 < c.max
    → size c ≤ c.max
    → (size (handle now r c).0 ≤ c.max)
      × (size (on_response now r resp c) ≤ c.max)
      × (size (evict_expired now c) ≤ c.max)
size-le-max now r resp c p h = (
  omega (arith, handle-size now r c),
  on_response-size now r resp c p h,
  omega (arith, evict_expired-size now c),
)
