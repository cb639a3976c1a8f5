-- ===== src/Modules/ActiveHealth/Rounds.antt =====
-- What a round of checks makes of the health of each backend.
use modular_rust_reverse_pro.Base.{
  ◌≡◌, refl, Bool, true, false, ◌&&◌, some, List, [], ◌∷◌, map, Text, ◌==◌, text_eq, text_beq_iff,
  HashMap, lookup, insert, lookup-insert, if◌then◌else◌, any, is_some, arith,
}
use modular_rust_reverse_pro.Modules.ActiveHealth.{Health, is_healthy, check_round, write_back}

abbrev has_key : Text → HashMap Text Bool → Bool
has_key a m = any (λ (e : Text × Bool). e.0 == a) m

abbrev checked : (Text → Bool) → HashMap Text Bool → List (Text × Bool)
checked connects m = map (λ (e : Text × Bool). (e.0, connects e.0)) m

lookup-write_back :
    (connects : Text → Bool) (a : Text) (es m : HashMap Text Bool)
    → lookup a (write_back (checked connects es) m)
      ≡ (if is_some (lookup a m) && has_key a es then some (connects a) else lookup a m)
unfolding write_back
lookup-write_back connects a [] m = ground arith
lookup-write_back connects a ((k, v) ∷ es) m = ground (
  arith,
  lookup-write_back connects a es (if is_some (lookup k m) then insert k (connects k) m else m),
  lookup-insert k a (connects k) m,
  text_beq_iff k a,
)

has_key-lookup : (a : Text) (m : HashMap Text Bool) → has_key a m ≡ is_some (lookup a m)
unfolding lookup
has_key-lookup a [] = refl
has_key-lookup a ((k, v) ∷ m) = ground (arith, has_key-lookup a m)

-- After a round over a map that no panic has poisoned, a backend of the map counts as healthy exactly if a
-- connection to it could be made, whatever it counted as before; every other address counts as healthy.
pub is_healthy-check_round :
    (connects : Text → Bool) (h : Health) (m : HashMap Text Bool) (a : Text)
    → h.table ≡ some m
    → h.poisoned ≡ false
    → is_healthy (check_round connects h) a ≡ (if is_some (lookup a m) then connects a else true)
unfolding is_healthy check_round
is_healthy-check_round connects h m a t p =
    rw (t, p, check_round) (ground (arith, lookup-write_back connects a m m, has_key-lookup a m))
