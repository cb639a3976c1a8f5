-- ===== src/Tests/Formats.antt =====
-- Values as the crate `toml` has them, on which the witnesses run.
use modular_rust_reverse_pro.Base.{
  ◌≡◌, refl, ap, Bool, Option, none, some, List, [], ◌∷◌, Text, text_eq, HashMap, lookup, ℤ,
}
use modular_rust_reverse_pro.Toml.{Toml, Builder}

mutual
  pub data Value : Type 0 where
    boolean : Bool → Value
    integer : ℤ → Value
    string : Text → Value
    array : Entries → Value
    table : Entries → Value

  pub data Entries : Type 0 where
    none_left : Entries
    entry : Text → Value → Entries → Entries

unfoldable pub of_list : HashMap Text Value → Entries
of_list [] = none_left
of_list ((k, v) ∷ m) = entry k v (of_list m)

unfoldable pub to_list : Entries → HashMap Text Value
to_list none_left = []
to_list (entry k v es) = (k, v) ∷ to_list es

pub of_values : List Value → Entries
of_values [] = none_left
of_values (v ∷ vs) = entry [] v (of_values vs)

to_values : Entries → List Value
to_values none_left = []
to_values (entry k v es) = v ∷ to_values es

to_list-of_list : (m : HashMap Text Value) → to_list (of_list m) ≡ m
unfolding to_list of_list
to_list-of_list [] = refl
to_list-of_list ((k, v) ∷ m) = ap (λ l. (k, v) ∷ l) (to_list-of_list m)

unfoldable pub get : Value → Text → Option Value
unfolding to_list
get (table es) k = lookup k (to_list es)
get (boolean b) k = none
get (integer i) k = none
get (string s) k = none
get (array es) k = none

unfoldable pub as_bool : Value → Option Bool
as_bool (boolean b) = some b
as_bool (integer i) = none
as_bool (string s) = none
as_bool (array es) = none
as_bool (table es) = none

pub as_integer : Value → Option ℤ
as_integer (integer i) = some i
as_integer (boolean b) = none
as_integer (string s) = none
as_integer (array es) = none
as_integer (table es) = none

pub as_str : Value → Option Text
as_str (string s) = some s
as_str (boolean b) = none
as_str (integer i) = none
as_str (array es) = none
as_str (table es) = none

pub as_array : Value → Option (List Value)
unfolding to_values
as_array (array es) = some (to_values es)
as_array (boolean b) = none
as_array (integer i) = none
as_array (string s) = none
as_array (table es) = none

unfoldable pub as_table : Value → Option (HashMap Text Value)
unfolding to_list
as_table (table es) = some (to_list es)
as_table (boolean b) = none
as_table (integer i) = none
as_table (string s) = none
as_table (array es) = none

abbrev pub values : Toml
values = record {
  Value = Value;
  get = get;
  as_bool = as_bool;
  as_integer = as_integer;
  as_str = as_str;
  as_array = as_array;
  as_table = as_table;
  display = λ v. [];
}

pub get-table_lem : (k : Text) (m : HashMap Text Value) → get (table (of_list m)) k ≡ lookup k m
unfolding get
get-table_lem k m = ap (λ l. lookup k l) (to_list-of_list m)

pub as_table-table_lem : (m : HashMap Text Value) → as_table (table (of_list m)) ≡ some m
unfolding as_table
as_table-table_lem m = ap some (to_list-of_list m)

pub as_bool-boolean_lem : (b : Bool) → as_bool (boolean b) ≡ some b
unfolding as_bool
as_bool-boolean_lem b = refl

abbrev pub builder : Builder values
builder = record {
  boolean = boolean;
  integer = integer;
  string = string;
  array = λ vs. array (of_values vs);
  table = λ m. table (of_list m);
  get-table = get-table_lem;
  as_table-table = as_table-table_lem;
  as_bool-boolean = as_bool-boolean_lem;
}
