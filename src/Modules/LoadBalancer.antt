-- ===== src/Modules/LoadBalancer.antt =====
-- src/modules/load_balancer.rs: the round-robin selection, and the single backend.
pub mod Choice
use modular_rust_reverse_pro.Base.{
  ℕ, zero, suc, ◌+◌, ◌%◌, ◌^◌, Bool, true, false, Option, none, some, List, [], ◌∷◌, Text, lit,
  if◌then◌else◌, nat_beq, length, get_elem?, unwrap_or, is_empty,
}
use modular_rust_reverse_pro.Http.Response.{HttpResponse, error}
use modular_rust_reverse_pro.Context.{Context, set}
use modular_rust_reverse_pro.Metrics.{fetch_add}

-- `Single`
unfoldable pub handle_single : Text → Context → Context × Option HttpResponse
handle_single addr c = (set (lit "_backend_addr") addr c, none)

pub record RoundRobin : Type 0 where
  pub backends : List Text
  pub idx : ℕ

-- `&self.backends[i]`; the source's indices are in range.
abbrev pub backend : List Text → ℕ → Text
backend bs i = unwrap_or (get_elem? bs i) []

-- `for offset in 0..len`, with the rounds that are left: the first backend that is healthy.
unfoldable pub first_healthy : (Text → Bool) → List Text → ℕ → ℕ → ℕ → Option Text
first_healthy healthy bs start offset zero = none
first_healthy healthy bs start offset (suc left) =
    let later = first_healthy healthy bs start (offset + 1) left in
    let addr = backend bs ((start + offset) % length bs) in
    if healthy addr then some addr else later

-- `handle`, with `is_healthy` as it answers during the call.
unfoldable pub handle :
    (Text → Bool) → Context → RoundRobin → RoundRobin × Context × Option HttpResponse
unfolding first_healthy
handle healthy c r =
    let len = length r.backends in
    let start = r.idx % len in
    let addr =
      unwrap_or (first_healthy healthy r.backends start 0 len) (backend r.backends start) in
    if nat_beq len 0
    then (r, c, some (error 503 (lit "No backends available")))
    else (record r { idx = fetch_add r.idx 1 }, set (lit "_backend_addr") addr c, none)
