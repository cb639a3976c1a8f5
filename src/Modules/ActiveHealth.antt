-- ===== src/Modules/ActiveHealth.antt =====
-- src/modules/active_health.rs: the health map, and a round of the thread that checks the backends. Whether a
-- connection can be made is a parameter.
pub mod Rounds
use modular_rust_reverse_pro.Base.{
  Bool, true, false, Option, none, some, ◌>>=◌, List, [], ◌∷◌, ◌++◌, map, Text, text_eq, HashMap,
  lookup, insert, if◌then◌else◌, is_empty, retain, unwrap_or, is_some,
}

-- The global map, once it is set, and whether its lock is poisoned.
pub record Health : Type 0 where
  pub table : Option (HashMap Text Bool)
  pub poisoned : Bool

unfoldable pub is_healthy : Health → Text → Bool
is_healthy h addr = unwrap_or (do m ← h.table; if h.poisoned then none else lookup addr m) true

-- What `register` stores for the backends of the balancer, or else the single backend; `parses` tells which
-- addresses are valid. A map that is there already stays.
start_table : List Text → HashMap Text Bool
start_table [] = []
start_table (b ∷ bs) = insert b true (start_table bs)

unfoldable pub register : (Text → Bool) → List Text → Text → Health → Health
unfolding start_table
register parses backends backend h =
    let valid = retain parses (if is_empty backends then backend ∷ [] else backends) in
    if is_empty valid then h else record h { table = some (unwrap_or h.table (start_table valid)) }

-- The results are written back to the keys that are still there.
unfoldable pub write_back : List (Text × Bool) → HashMap Text Bool → HashMap Text Bool
write_back [] m = m
write_back ((addr, up) ∷ rs) m =
    write_back rs (if is_some (lookup addr m) then insert addr up m else m)

-- One round of the loop.
unfoldable pub check_round : (Text → Bool) → Health → Health
unfolding write_back
check_round connects h = elim h.table [
  | none ↦ h
  | some m ↦
      if h.poisoned
      then h
      else record h { table = some (write_back (map (λ e. (e.0, connects e.0)) m) m) }
]
