-- ===== src/Context.antt =====
-- src/context.rs: the per-request context. `put` and `take` keep values of any type under a key with a
-- checked downcast; a stored value is modelled by the tag of its type and its content.
use modular_rust_reverse_pro.Base.{
  ℕ, ◌-◌, ◌/◌, Option, none, some, ◌>>=◌, [], Text, HashMap, lookup, insert, ◌==◌, text_eq,
  if◌then◌else◌,
}

pub record Stored : Type 0 where
  pub type_id : Text
  pub content : Text

pub record Context : Type 0 where
  pub strings : HashMap Text Text
  pub state : HashMap Text Stored
  pub started_at : ℕ

-- `Context::new`, at the time `now` in nanoseconds
unfoldable pub new : ℕ → Context
new now = record { strings = []; state = []; started_at = now }

unfoldable pub set : Text → Text → Context → Context
set k v c = record c { strings = insert k v c.strings }

unfoldable pub get : Text → Context → Option Text
get k c = lookup k c.strings

unfoldable pub put : Text → Stored → Context → Context
put k v c = record c { state = insert k v c.state }

unfoldable pub take : Text → Text → Context → Option Text
take type k c = do v ← lookup k c.state; if v.type_id == type then some v.content else none

unfoldable pub elapsed_ms : ℕ → Context → ℕ
elapsed_ms now c = (now - c.started_at) / 1_000_000
