-- ===== src/Script/Stdlib/Caching.antt =====
-- `std_cache_check`, `std_cache_store` and a round of `start_cache_eviction` of src/script/stdlib.rs
pub mod Agreement
use modular_rust_reverse_pro.Base.{
  ℕ, ◌+◌, ◌*◌, not, ◌||◌, Option, none, some, List, Text, lit, ◌==◌, text_eq, if◌then◌else◌, ltb,
  nat_beq, retain, HashMap, lookup, insert, remove, is_some,
}
use modular_rust_reverse_pro.Sync.{Mutex, lock, store}
use modular_rust_reverse_pro.Http.Request.{HttpRequest}
use modular_rust_reverse_pro.Http.Response.{HttpResponse}
use modular_rust_reverse_pro.Http.Response
use modular_rust_reverse_pro.Modules.Cache.{Entry, second, not_modified, marked_hit, tag_matches}
use modular_rust_reverse_pro.Script.Stdlib.Arguments.{number_arg}

abbrev pub Entries : Type 0
Entries = Mutex (HashMap Text Entry)

-- What an entry that was found answers, and what stays.
unfoldable pub std_found :
    ℕ → HttpRequest → HashMap Text Entry → Entry → HashMap Text Entry × Option HttpResponse
unfolding not_modified marked_hit tag_matches
std_found now req m e =
    if ltb now e.exp
    then if tag_matches req e.resp then (m, some not_modified) else (m, some (marked_hit e.resp))
    else (remove req.path m, none)

unfoldable pub std_cache_check : ℕ → HttpRequest → Entries → Entries × Option HttpResponse
unfolding std_found
std_cache_check now req c =
    let m = lock (λ a. a) c in
    if not (req.method == lit "GET") then (c, none) else elim (lookup req.path m) [
      | none ↦ (c, none)
      | some e ↦ let (m', resp) = std_found now req m e in (store m' c, resp)
    ]

unfoldable pub std_cache_store : ℕ → List Text → HttpRequest → HttpResponse → Entries → Entries
std_cache_store now args req resp c =
    let entry : Entry = record { resp = resp; exp = now + number_arg args 0 300 * second } in
    if is_some (Response.get_header resp (lit "X-Cache")) || not (nat_beq resp.status_code 200)
    then c
    else store (insert req.path entry (lock (λ a. a) c)) c

-- A round of the thread that `start_cache_eviction` starts.
unfoldable pub evict_round : ℕ → Entries → Entries
evict_round now c = store (retain (λ e. ltb now e.1.exp) (lock (λ a. a) c)) c
