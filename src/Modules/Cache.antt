-- ===== src/Modules/Cache.antt =====
-- src/modules/cache.rs: the response cache. Times are in nanoseconds without a bound, and the clock stands still during a
-- call; that `Instant::now() + Duration::from_secs(ttl)` panics for a `ttl` near 2^64 is not modelled.
pub mod Bounds
pub mod Hits
use modular_rust_reverse_pro.Base.{
  ℕ, zero, suc, ◌+◌, ◌*◌, Bool, true, false, not, ◌&&◌, Option, none, some, List, [], ◌∷◌, ◌++◌,
  Text, lit, ◌==◌, text_eq, if◌then◌else◌, ltb, leb, nat_beq, length, retain, HashMap, lookup,
  insert, remove, ◌>>=◌, unwrap_or, is_none,
}
use modular_rust_reverse_pro.Sync.{Mutex, lock, store, unlocked}
use modular_rust_reverse_pro.Http.Request.{HttpRequest}
use modular_rust_reverse_pro.Http.Request
use modular_rust_reverse_pro.Http.Response.{HttpResponse}
use modular_rust_reverse_pro.Http.Response

abbrev pub second : ℕ
second = 1_000_000_000

pub record Entry : Type 0 where
  pub resp : HttpResponse
  pub exp : ℕ

pub record Cache : Type 0 where
  pub cache : Mutex (HashMap Text Entry)
  pub ttl : ℕ
  pub max : ℕ

-- What `register` creates.
unfoldable pub create : ℕ → ℕ → Cache
create ttl max = record { cache = unlocked []; ttl = ttl; max = max }

unfoldable pub not_modified : HttpResponse
not_modified = record {
  version = lit "HTTP/1.1";
  status_code = 304;
  status_text = lit "Not Modified";
  headers = (lit "X-Cache", lit "HIT") ∷ [];
  body = [];
}

unfoldable pub marked_hit : HttpResponse → HttpResponse
marked_hit r = record r { headers = r.headers ++ (lit "X-Cache", lit "HIT") ∷ [] }

-- The tag of the request is that of the stored response.
unfoldable pub tag_matches : HttpRequest → HttpResponse → Bool
tag_matches r e =
    unwrap_or
      (do
        tag ← Request.get_header r (lit "If-None-Match")
        etag ← Response.get_header e (lit "ETag")
        some (tag == etag))
      false

-- The part of `handle` for an entry that was found: what stays in the map, and the response.
unfoldable pub found :
    ℕ → HttpRequest → HashMap Text Entry → Entry → HashMap Text Entry × Option HttpResponse
unfolding not_modified marked_hit tag_matches
found now r m e =
    if ltb now e.exp
    then (m, some (if tag_matches r e.resp then not_modified else marked_hit e.resp))
    else (remove r.path m, none)

unfoldable pub handle : ℕ → HttpRequest → Cache → Cache × Option HttpResponse
unfolding found
handle now r c =
    if not (r.method == lit "GET")
    then (c, none)
    else let m = lock (λ a. a) c.cache in
      elim (lookup r.path m) [
        | none ↦ (c, none)
        | some e ↦ let (m', resp) = found now r m e in (record c { cache = store m' c.cache }, resp)
      ]

-- `min_by_key(|(_, e)| e.exp)`: the first of the entries that expire earliest.
unfoldable pub oldest_from : Text → ℕ → HashMap Text Entry → Text
oldest_from k exp [] = k
oldest_from k exp ((j, e) ∷ m) =
    oldest_from (if ltb e.exp exp then j else k) (if ltb e.exp exp then e.exp else exp) m

unfoldable pub oldest : HashMap Text Entry → Option Text
unfolding oldest_from
oldest [] = none
oldest ((k, e) ∷ m) = some (oldest_from k e.exp m)

-- `while m.len() >= self.max`, on fuel
unfoldable pub evict : ℕ → ℕ → HashMap Text Entry → HashMap Text Entry
evict zero max m = m
evict (suc fuel) max m =
    if ltb (length m) max
    then m
    else elim (oldest m) [ none ↦ m | some k ↦ evict fuel max (remove k m) ]

-- Each round removes an entry, so that there are no more rounds than entries.
unfoldable pub make_room : ℕ → HashMap Text Entry → HashMap Text Entry
unfolding evict
make_room max m = evict (length m) max m

unfoldable pub is_storable : HttpResponse → Bool
is_storable resp =
    is_none (Response.get_header resp (lit "X-Cache")) && nat_beq resp.status_code 200

unfoldable pub on_response : ℕ → HttpRequest → HttpResponse → Cache → Cache
unfolding make_room is_storable
on_response now req resp c =
    let m = make_room c.max (lock (λ _. []) c.cache) in
    let entry : Entry = record { resp = resp; exp = now + c.ttl * second } in
    if is_storable resp then record c { cache = store (insert req.path entry m) c.cache } else c

-- One round of the eviction thread.
unfoldable pub evict_expired : ℕ → Cache → Cache
evict_expired now c = record c {
  cache = store (retain (λ e. ltb now e.1.exp) (lock (λ _. []) c.cache)) c.cache;
}

-- One url of `warm_cache`, with the response that was fetched, if any.
unfoldable pub warm : ℕ → Text → Option HttpResponse → Cache → Cache
warm now u none c = c
warm now u (some resp) c = record c {
  cache =
      store (insert u (record { resp = resp; exp = now + 300 * second }) (lock (λ _. []) c.cache))
        c.cache;
}
