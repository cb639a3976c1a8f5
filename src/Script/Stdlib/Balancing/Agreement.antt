-- ===== src/Script/Stdlib/Balancing/Agreement.antt =====
-- The balancing of the scripts beside that of src/modules/load_balancer.rs.
use modular_rust_reverse_pro.Base.{
  ℕ, zero, suc, ◌+◌, ◌%◌, ◌≡◌, refl, Bool, none, some, List, [], ◌∷◌, Text, lit, arith, text_eq,
  length, HashMap, is_empty, if◌then◌else◌,
}
use native.Mathlib.Nat.{mod-mod}
use modular_rust_reverse_pro.Http.Response.{error}
use modular_rust_reverse_pro.Metrics.{fetch_add}
use modular_rust_reverse_pro.Context.{Context}
use modular_rust_reverse_pro.Modules.LoadBalancer.{first_healthy, handle}
use modular_rust_reverse_pro.Script.Stdlib.Balancing.{
  HealthMap, is_backend_healthy, backends_of, next_healthy, std_load_balance,
}

next_healthy-first_healthy :
    (healthy : Text → Bool) (bs : List Text) (start offset left : ℕ)
    → next_healthy healthy bs start offset left ≡ first_healthy healthy bs start offset left
unfolding next_healthy first_healthy
next_healthy-first_healthy healthy bs start offset zero = refl
next_healthy-first_healthy healthy bs start offset (suc left) =
    rw (next_healthy-first_healthy healthy bs start (offset + 1) left) refl

balanced :
    (h : HealthMap) (args : List Text) (config : HashMap Text Text) (index : ℕ) (ctx : Context)
    (bs : List Text)
    → backends_of args config ≡ bs
    → let r = handle (is_backend_healthy h) ctx (record { backends = bs; idx = index }) in
      (std_load_balance h args config index ctx ≡ (r.0.idx, r.1))
      × (r.2 ≡ (if is_empty bs then some (error 503 (lit "No backends available")) else none))
unfolding std_load_balance handle fetch_add
balanced h args config index ctx [] e = rw (e, std_load_balance) (refl, refl)
balanced h args config index ctx (b ∷ bs) e =
    let n = length (b ∷ bs) in
    rw (e, std_load_balance)
      (rw (next_healthy-first_healthy (is_backend_healthy h) (b ∷ bs) (index % n) 0 n)
        (ground (arith, mod-mod index n)))

-- `load_balance` in a script chooses as the balancer of src/modules/load_balancer.rs with the same backends, index and
-- health does: the same index afterwards and the same address in the context. With no backends the script passes the request
-- on unchanged, where the module answers with 503.
pub std_load_balance-eq-handle :
    (h : HealthMap) (args : List Text) (config : HashMap Text Text) (index : ℕ) (ctx : Context)
    → let bs = backends_of args config in
      let r = handle (is_backend_healthy h) ctx (record { backends = bs; idx = index }) in
      (std_load_balance h args config index ctx ≡ (r.0.idx, r.1))
      × (r.2 ≡ (if is_empty bs then some (error 503 (lit "No backends available")) else none))
std_load_balance-eq-handle h args config index ctx =
    balanced h args config index ctx (backends_of args config) refl
