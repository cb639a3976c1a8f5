-- ===== src/Tests/Storing.antt =====
-- The stores of the proxy on concrete entries: cache, rate limiter, and connection pool.
use modular_rust_reverse_pro.Base.{
  ℕ, ◌*◌, ◌≤◌, ◌<◌, ◌≡◌, ◌⊎◌, refl, true, false, none, some, List, [], ◌∷◌, lit, arith, lookup,
  nat_eq, text_eq,
}
use mathlib.Core.List.{reverse}
use modular_rust_reverse_pro.Sync.{lock, unlocked}
use modular_rust_reverse_pro.Context.{Context}
use modular_rust_reverse_pro.Http.Headers.{get_hdr}
use modular_rust_reverse_pro.Http.Request.{HttpRequest}
use modular_rust_reverse_pro.Http.Response.{HttpResponse, get_header}
use modular_rust_reverse_pro.Modules.Cache.{Cache, Entry, not_modified, marked_hit, is_storable}
use modular_rust_reverse_pro.Modules.Cache
use modular_rust_reverse_pro.Modules.Cache.Hits.{IsHit, stored_answers}
use modular_rust_reverse_pro.Modules.Cache.Bounds.{size, size-le-max}
use modular_rust_reverse_pro.Modules.RateLimiter.{Bucket, RateLimit, max_buckets}
use modular_rust_reverse_pro.Modules.RateLimiter
use modular_rust_reverse_pro.Modules.RateLimiter.Bounds.{bucket_count, bucket_count-le}
use modular_rust_reverse_pro.Modules.RateLimiter.Tokens.{
  AllInRange, handle-AllInRange, exact, exact-FloatLaws, unit,
}
use modular_rust_reverse_pro.Modules.RateLimiter.Poisoned.{poisoned_admits}
use modular_rust_reverse_pro.Pool.{ConnPool, Pooled, Probe, would_block, purge}
use modular_rust_reverse_pro.Pool
use modular_rust_reverse_pro.Pool.Bounds.{AllBounded, pool-AllBounded}
use modular_rust_reverse_pro.Pool.Reuse.{IsReusable, get-IsReusable}

abbrev get_a : HttpRequest
get_a = record {
  method = lit "GET";
  path = lit "/a";
  version = lit "HTTP/1.1";
  headers = [];
  body = [];
}

abbrev post_a : HttpRequest
post_a = record get_a { method = lit "POST" }

abbrev plain : HttpResponse
plain = record {
  version = lit "HTTP/1.1";
  status_code = 200;
  status_text = lit "OK";
  headers = [];
  body = 111 ∷ [];
}

abbrev cold : Cache
cold = record { cache = unlocked []; ttl = 60; max = 2 }

plain_unmarked : get_header plain (lit "X-Cache") ≡ none
unfolding get_hdr
plain_unmarked = refl

-- The response to a POST request is what the GET request gets.
stored_answers_example :
    ((5 * Cache.second < 60 * Cache.second)
      × IsHit get_a plain
          (Cache.handle (5 * Cache.second) get_a (Cache.on_response 0 post_a plain cold)).1
      × (lookup
            (lit "/a")
            (Cache.handle
              (5 * Cache.second)
              get_a
              (Cache.on_response 0 post_a plain cold)).0.cache.inner
          ≡ some (record { resp = plain; exp = 60 * Cache.second })))
    ⊎ ((60 * Cache.second ≤ 5 * Cache.second)
        × ((Cache.handle (5 * Cache.second) get_a (Cache.on_response 0 post_a plain cold)).1 ≡ none)
        × (lookup
              (lit "/a")
              (Cache.handle
                (5 * Cache.second)
                get_a
                (Cache.on_response 0 post_a plain cold)).0.cache.inner
            ≡ none))
stored_answers_example =
    stored_answers 0 (5 * Cache.second) post_a get_a plain cold refl plain_unmarked refl refl

size-le-max_example :
    (size (Cache.handle 9 get_a cold).0 ≤ 2)
    × (size (Cache.on_response 9 get_a plain cold) ≤ 2)
    × (size (Cache.evict_expired 9 cold) ≤ 2)
size-le-max_example = size-le-max 9 get_a plain cold (omega arith) (omega arith)

abbrev caller : Context
caller = record { strings = (lit "_client_ip", lit "10.0.0.1") ∷ []; state = []; started_at = 0 }

abbrev limiter : RateLimit exact
limiter = record {
  rps = 10;
  burst = 20;
  buckets = unlocked ((lit "10.0.0.1", record { tokens = 3 * unit; last = 4 }) ∷ []);
}

bucket_count-le_example :
    bucket_count exact (RateLimiter.handle exact 9 caller limiter).0 ≤ max_buckets
bucket_count-le_example = bucket_count-le exact 9 caller limiter (omega arith)

handle-AllInRange_example :
    AllInRange exact exact-FloatLaws 20 (RateLimiter.handle exact 9 caller limiter).0.buckets.inner
handle-AllInRange_example =
    handle-AllInRange exact exact-FloatLaws 9 caller limiter (omega arith) (omega arith)
      ((refl, refl), tt)

abbrev poisoned_limiter : RateLimit exact
poisoned_limiter = record limiter { buckets = record { poisoned = true; inner = [] } }

poisoned_admits_example :
    ((RateLimiter.handle exact 9 caller poisoned_limiter).1 ≡ none)
    × ((RateLimiter.handle exact 9 caller poisoned_limiter).0.buckets.poisoned ≡ true)
    × ((RateLimiter.handle exact 9 caller poisoned_limiter).0.burst ≡ 20)
poisoned_admits_example =
    poisoned_admits exact exact-FloatLaws 9 caller poisoned_limiter refl (omega arith) (omega arith)

abbrev idle_pool : ConnPool ℕ ℕ
idle_pool = record { idle = unlocked ((80, record { stream = 5; created = 1 } ∷ []) ∷ []) }

abbrev alive : ℕ → Probe
alive s = would_block true

pool-AllBounded_example :
    AllBounded (Pool.get alive 7 none 80 idle_pool).0.idle.inner
    × AllBounded (Pool.put 7 80 6 idle_pool).idle.inner
pool-AllBounded_example = pool-AllBounded alive 7 none 80 6 idle_pool (omega arith, tt)

get-IsReusable_example :
    (((Pool.get alive 7 none 80 idle_pool).2 ≡ true)
      × (s : ℕ) × (conns : List (Pooled ℕ)) × ((Pool.get alive 7 none 80 idle_pool).1 ≡ some s)
      × (lookup 80 (lock (purge 7) idle_pool.idle) ≡ some conns)
      × IsReusable alive 7 s (reverse conns))
    ⊎ (((Pool.get alive 7 none 80 idle_pool).2 ≡ false)
        × ((Pool.get alive 7 none 80 idle_pool).1 ≡ none))
get-IsReusable_example = get-IsReusable alive 7 none 80 idle_pool
