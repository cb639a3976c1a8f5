-- ===== src/Toml.antt =====
-- The values of the crate `toml`, as the source looks into them.
use modular_rust_reverse_pro.Base.{◌≡◌, Bool, Option, some, List, Text, text_eq, ℤ, HashMap, lookup}

pub record Toml : Type 1 where
  pub Value : Type 0
  -- `Value::get` with a key, of a table
  pub get : Value → Text → Option Value
  pub as_bool : Value → Option Bool
  pub as_integer : Value → Option ℤ
  pub as_str : Value → Option Text
  pub as_array : Value → Option (List Value)
  pub as_table : Value → Option (List (Text × Value))
  -- `to_string`
  pub display : Value → Text

-- The constructors of a value, and what the readers find in what they make. The keys of a table are distinct.
pub record Builder (t : Toml) : Type 0 where
  pub boolean : Bool → t.Value
  pub integer : ℤ → t.Value
  pub string : Text → t.Value
  pub array : List t.Value → t.Value
  pub table : HashMap Text t.Value → t.Value
  pub get-table : (k : Text) (m : HashMap Text t.Value) → t.get (table m) k ≡ lookup k m
  pub as_table-table : (m : HashMap Text t.Value) → t.as_table (table m) ≡ some m
  pub as_bool-boolean : (b : Bool) → t.as_bool (boolean b) ≡ some b
