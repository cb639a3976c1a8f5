-- ===== src/Script/Stdlib/Caching/Agreement.antt =====
-- The cache of the scripts beside that of src/modules/cache.rs.
use modular_rust_reverse_pro.Base.{
  ℕ, zero, suc, length-insert_new, ◌+◌, ◌*◌, ◌≡◌, ◌<◌, refl, true, false, none, List, Text, arith,
  text_eq, length, lookup, HashMap,
}
use modular_rust_reverse_pro.Http.Request.{HttpRequest}
use modular_rust_reverse_pro.Http.Response.{HttpResponse}
use modular_rust_reverse_pro.Modules.Cache.{
  Cache, Entry, second, handle, found, on_response, make_room, evict, is_storable,
}
use modular_rust_reverse_pro.Script.Stdlib.Arguments.{number_arg}
use modular_rust_reverse_pro.Script.Stdlib.Caching.{
  Entries, std_found, std_cache_check, std_cache_store,
}

-- The cache of the module with these entries.
abbrev pub cache_of : ℕ → ℕ → Entries → Cache
cache_of ttl max c = record { cache = c; ttl = ttl; max = max }

check-eq-handle :
    (now ttl max : ℕ) (req : HttpRequest) (c : Entries)
    → handle now req (cache_of ttl max c)
      ≡ (cache_of ttl max (std_cache_check now req c).0, (std_cache_check now req c).1)
unfolding handle found std_cache_check std_found
check-eq-handle now ttl max req c = ground arith

evict_roomy : (fuel max : ℕ) (m : HashMap Text Entry) → length m < max → evict fuel max m ≡ m
unfolding evict
evict_roomy zero max m h = refl
evict_roomy (suc fuel) max m h = ground arith

store-eq-on_response :
    (now max : ℕ) (args : List Text) (req : HttpRequest) (resp : HttpResponse) (c : Entries)
    → c.poisoned ≡ false
    → length c.inner < max
    → on_response now req resp (cache_of (number_arg args 0 300) max c)
      ≡ cache_of (number_arg args 0 300) max (std_cache_store now args req resp c)
unfolding on_response make_room is_storable std_cache_store
store-eq-on_response now max args req resp c sound room =
    ground (arith, evict_roomy (length c.inner) max c.inner room)

-- On the same entries, where no panic has poisoned the lock and the module's cache is not full: `cache.check` in a script answers and
-- keeps what the module's `handle` does, and `cache.store` keeps what the module's `on_response` does with the same time to live.
pub std_cache-eq-module :
    (now max : ℕ) (args : List Text) (req : HttpRequest) (resp : HttpResponse) (c : Entries)
    → c.poisoned ≡ false
    → length c.inner < max
    → let ttl = number_arg args 0 300 in
      (handle now req (cache_of ttl max c)
        ≡ (cache_of ttl max (std_cache_check now req c).0, (std_cache_check now req c).1))
      × (on_response now req resp (cache_of ttl max c)
          ≡ cache_of ttl max (std_cache_store now args req resp c))
std_cache-eq-module now max args req resp c sound room = (
  check-eq-handle now (number_arg args 0 300) max req c,
  store-eq-on_response now max args req resp c sound room,
)

-- Every response that may be stored for a path that has no entry makes the map of the scripts longer, however long it is.
pub std_cache_store-grows :
    (now : ℕ) (args : List Text) (req : HttpRequest) (resp : HttpResponse) (c : Entries)
    → is_storable resp ≡ true
    → lookup req.path c.inner ≡ none
    → length (std_cache_store now args req resp c).inner ≡ length c.inner + 1
unfolding std_cache_store is_storable
std_cache_store-grows now args req resp c h new = ground (
  arith,
  length-insert_new req.path (record { resp = resp; exp = now + number_arg args 0 300 * second })
      c.inner new,
)
