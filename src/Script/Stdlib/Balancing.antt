-- ===== src/Script/Stdlib/Balancing.antt =====
-- `std_load_balance`, `is_backend_healthy` and the health map of src/script/stdlib.rs
pub mod Agreement
use modular_rust_reverse_pro.Base.{
  ℕ, zero, suc, ◌+◌, ◌%◌, ◌^◌, Bool, true, not, Option, none, some, ◌>>=◌, List, [], ◌∷◌, map, Text,
  lit, text_eq, if◌then◌else◌, nat_beq, length, get_elem?, is_empty, retain, HashMap, lookup,
  insert, unwrap_or,
}
use modular_rust_reverse_pro.Strings.Chars.{trim}
use modular_rust_reverse_pro.Strings.Split.{split}
use modular_rust_reverse_pro.Context.{Context, set}
use modular_rust_reverse_pro.Script.Stdlib.Arguments.{arg}
use modular_rust_reverse_pro.Script.Stdlib.Messages.{setting_key}

-- `HEALTH_MAP`: a map behind a lock that a panic may have poisoned.
pub record HealthMap : Type 0 where
  pub states : HashMap Text Bool
  pub poisoned : Bool

unfoldable pub is_backend_healthy : HealthMap → Text → Bool
is_backend_healthy h addr = unwrap_or (if h.poisoned then none else lookup addr h.states) true

-- The backends that the argument lists, or that the setting it names lists.
unfoldable pub backends_of : List Text → HashMap Text Text → List Text
unfolding setting_key
backends_of args config =
    let text =
      unwrap_or (arg args 0 >>= λ a. some (unwrap_or (lookup (setting_key a) config) a)) [] in
    retain (λ s. not (is_empty s)) (split b',' text)

-- `for offset in 0..len`, with the rounds that are left.
unfoldable pub next_healthy : (Text → Bool) → List Text → ℕ → ℕ → ℕ → Option Text
next_healthy healthy backends start offset zero = none
next_healthy healthy backends start offset (suc left) =
    let later = next_healthy healthy backends start (offset + 1) left in
    let addr = unwrap_or (get_elem? backends ((start + offset) % length backends)) [] in
    if healthy addr then some addr else later

-- The counter `LB_INDEX` and the context.
unfoldable pub std_load_balance :
    HealthMap → List Text → HashMap Text Text → ℕ → Context → ℕ × Context
unfolding next_healthy backends_of
std_load_balance h args config index ctx =
    let backends = backends_of args config in
    let len = length backends in
    let start = index % len in
    let fallback = unwrap_or (get_elem? backends (start % len)) [] in
    let addr = unwrap_or (next_healthy (is_backend_healthy h) backends start 0 len) fallback in
    if is_empty backends
    then (index, ctx)
    else ((index + 1) % 2 ^ 64, set (lit "_backend_addr") addr ctx)

-- The map that `std_active_health_start` stores: every backend is up. A poisoned lock leaves the old one.
all_up : List Text → HashMap Text Bool
all_up [] = []
all_up (b ∷ bs) = insert b true (all_up bs)

unfoldable pub std_active_health_start : HashMap Text Text → Text → HealthMap → HealthMap
unfolding all_up
std_active_health_start config backend_addr h =
    let text = unwrap_or (lookup (lit "backends") config) [] in
    let listed = retain (λ s. not (is_empty s)) (map trim (split b',' text)) in
    let backends = if is_empty listed then backend_addr ∷ [] else listed in
    if h.poisoned then h else record h { states = all_up backends }

-- A round of its thread; `connects` tells whether a connection can be made. An address that does not parse is
-- checked as 127.0.0.1:80, which `connects` covers.
unfoldable pub health_round : (Text → Bool) → HealthMap → HealthMap
health_round connects h =
    if h.poisoned then h else record h { states = map (λ e. (e.0, connects e.0)) h.states }
