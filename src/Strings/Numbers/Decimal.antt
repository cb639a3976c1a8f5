-- ===== src/Strings/Numbers/Decimal.antt =====
-- Decimal numbers are read back from their print.
use modular_rust_reverse_pro.Base.{
  ℕ, zero, suc, ◌+◌, ◌*◌, ◌/◌, ◌%◌, ◌≡◌, ◌≤◌, ◌<◌, refl, ap, ◌∙◌, false, some, [], ◌∷◌, Text, All,
  arith, inl, inr, Bool-cases, is_empty, ltb,
}
use modular_rust_reverse_pro.Strings.Numbers.{
  to_digit, digits_value, from_str_radix, show_onto, to_string,
}

abbrev pub IsDigit : ℕ → Type 0
IsDigit c = (48 ≤ c) × (c ≤ 57)

show_onto-digits : (f n : ℕ) (s : Text) → All IsDigit s → All IsDigit (show_onto f n s)
unfolding show_onto
show_onto-digits zero n s h = h
show_onto-digits (suc f) n s h = elim (Bool-cases (ltb n 10)) [
  | inl small ↦ rw (small, show_onto) (ground arith, h)
  | inr large ↦
      rw (large, show_onto) (show_onto-digits f (n / 10) ((48 + n % 10) ∷ s) (omega arith, h))
]

show_onto-more : (f n c : ℕ) (s : Text) → is_empty (show_onto f n (c ∷ s)) ≡ false
unfolding show_onto
show_onto-more zero n c s = refl
show_onto-more (suc f) n c s = ground (arith, show_onto-more f (n / 10) (48 + n % 10) (c ∷ s))

pub to_string-digits : (n : ℕ) → All IsDigit (to_string n)
unfolding to_string
to_string-digits n = show_onto-digits (suc n) n [] tt

to_string-given : (n : ℕ) → is_empty (to_string n) ≡ false
unfolding to_string show_onto
to_string-given n = ground (arith, show_onto-more n (n / 10) (48 + n % 10) [])

to_digit-digit : (d : ℕ) → d < 10 → to_digit 10 (48 + d) ≡ some d
unfolding to_digit
to_digit-digit d h = ground arith

digits_value-digit :
    (bound acc d : ℕ) (s : Text)
    → d < 10
    → acc * 10 + d < bound
    → digits_value 10 bound acc ((48 + d) ∷ s) ≡ digits_value 10 bound (acc * 10 + d) s
unfolding digits_value to_digit
digits_value-digit bound acc d s h fits = rw (to_digit-digit d h) (ground arith)

digits_value-show_onto :
    (bound f n : ℕ) (s : Text)
    → n < f
    → n < bound
    → digits_value 10 bound 0 (show_onto f n s) ≡ digits_value 10 bound n s
unfolding show_onto
digits_value-show_onto bound zero n s h fits = absurd (omega (arith, h))
digits_value-show_onto bound (suc f) n s h fits = elim (Bool-cases (ltb n 10)) [
  | inl small ↦
      rw (small, show_onto)
        (digits_value-digit bound 0 n s (ground arith) (omega (arith, fits))
          ∙ ap (λ m. digits_value 10 bound m s) (omega arith))
  | inr large ↦
      let whole : n / 10 * 10 + n % 10 ≡ n = omega arith in
      let less : n / 10 < f = ground arith in
      rw (large, show_onto)
        (digits_value-show_onto bound f (n / 10) ((48 + n % 10) ∷ s) less (omega (arith, fits))
          ∙ (digits_value-digit bound (n / 10) (n % 10) s (omega arith) (omega (arith, fits))
              ∙ ap (λ m. digits_value 10 bound m s) whole))
]

from_str_radix-digits :
    (bound : ℕ) (s : Text)
    → is_empty s ≡ false
    → All IsDigit s
    → from_str_radix 10 bound s ≡ digits_value 10 bound 0 s
unfolding from_str_radix
from_str_radix-digits bound [] h all = cc
from_str_radix-digits bound (c ∷ s) h all = ground arith

-- A number within the bound of its type is read back.
pub from_str_radix-to_string :
    (bound n : ℕ) → n < bound → from_str_radix 10 bound (to_string n) ≡ some n
unfolding to_string digits_value
from_str_radix-to_string bound n fits =
    from_str_radix-digits bound (to_string n) (to_string-given n) (to_string-digits n)
    ∙ digits_value-show_onto bound (suc n) n [] (omega arith) fits
