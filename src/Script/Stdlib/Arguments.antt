-- ===== src/Script/Stdlib/Arguments.antt =====
-- How the functions of src/script/stdlib.rs read their arguments.
use modular_rust_reverse_pro.Base.{ℕ, ◌>>=◌, Option, List, Text, get_elem?, unwrap_or}
use modular_rust_reverse_pro.Strings.Numbers.{parse_u64}

-- `args.get(i)`
abbrev pub arg : List Text → ℕ → Option Text
arg args i = get_elem? args i

-- `args.get(i).and_then(|s| s.parse().ok()).unwrap_or(default)`
unfoldable pub number_arg : List Text → ℕ → ℕ → ℕ
number_arg args i default = unwrap_or (arg args i >>= parse_u64) default
