-- ===== src/Strings/Numbers.antt =====
-- `str::parse` into unsigned machine integers, `from_str_radix` and `to_string`.
pub mod Decimal
use modular_rust_reverse_pro.Base.{
  ℕ, zero, suc, ◌+◌, ◌-◌, ◌*◌, ◌/◌, ◌%◌, ◌^◌, ◌&&◌, Option, none, some, [], ℤ, pos, negsuc, ◌∷◌,
  Text, ltb, leb, nat_beq, if◌then◌else◌, ◌>>=◌,
}

abbrev pub u16_bound : ℕ
u16_bound = 2 ^ 16

abbrev pub u64_bound : ℕ
u64_bound = 2 ^ 64

-- `char::to_digit` for a radix of at most 16
unfoldable pub to_digit : ℕ → ℕ → Option ℕ
to_digit radix c =
    let d =
      (if leb b'0' c && leb c b'9'
        then c - b'0'
        else if leb b'a' c && leb c b'f'
        then c - b'a' + 10
        else if leb b'A' c && leb c b'F'
        then c - b'A' + 10
        else 16) in
    if ltb d radix then some d else none

-- Each digit is added with a check against the bound of the type.
unfoldable pub digits_value : ℕ → ℕ → ℕ → Text → Option ℕ
unfolding to_digit
digits_value radix bound acc [] = some acc
digits_value radix bound acc (c ∷ s) = do
  d ← to_digit radix c
  if ltb (acc * radix + d) bound then digits_value radix bound (acc * radix + d) s else none

unfoldable pub unsigned_digits : ℕ → ℕ → Text → Option ℕ
unfolding digits_value
unsigned_digits radix bound [] = none
unsigned_digits radix bound (c ∷ s) = digits_value radix bound 0 (c ∷ s)

-- `from_str_radix`: a plus sign may stand in front of the digits.
unfoldable pub from_str_radix : ℕ → ℕ → Text → Option ℕ
unfolding unsigned_digits
from_str_radix radix bound [] = none
from_str_radix radix bound (c ∷ s) =
    if nat_beq c b'+' then unsigned_digits radix bound s else digits_value radix bound 0 (c ∷ s)

abbrev pub parse_u16 : Text → Option ℕ
parse_u16 s = from_str_radix 10 u16_bound s

-- `usize` has 64 bits.
abbrev pub parse_u64 : Text → Option ℕ
parse_u64 s = from_str_radix 10 u64_bound s

unfoldable pub show_onto : ℕ → ℕ → Text → Text
show_onto zero n s = s
show_onto (suc f) n s =
    let more = show_onto f (n / 10) ((b'0' + n % 10) ∷ s) in
    if ltb n 10 then (b'0' + n) ∷ s else more

-- `to_string`, in decimal
unfoldable pub to_string : ℕ → Text
unfolding show_onto
to_string n = show_onto (suc n) n []

-- A number of at most `half`, negated.
abbrev negated : ℕ → ℤ
negated zero = pos 0
negated (suc n) = negsuc n

-- `parse` into a signed integer with values from -half up to half - 1.
unfoldable pub parse_signed : ℕ → Text → Option ℤ
unfolding unsigned_digits from_str_radix
parse_signed half [] = none
parse_signed half (c ∷ s) =
    if nat_beq c b'-'
    then unsigned_digits 10 (half + 1) s >>= (λ n. some (negated n))
    else from_str_radix 10 half (c ∷ s) >>= (λ n. some (pos n))

unfoldable pub int_to_string : ℤ → Text
unfolding to_string
int_to_string (pos n) = to_string n
int_to_string (negsuc n) = b'-' ∷ to_string (n + 1)
