-- ===== src/Strings/Chars.antt =====
-- `char::is_whitespace`, `str::trim` and its variants, `eq_ignore_ascii_case`, `starts_with`,
-- `strip_prefix`.
use modular_rust_reverse_pro.Base.{
  ℕ, ◌+◌, ◌≡◌, Bool, false, ◌&&◌, ◌||◌, Option, none, some, [], ◌∷◌, ◌++◌, map, Text, leb, nat_beq,
  text_beq, if◌then◌else◌, ◌>>=◌, is_some,
}

-- The characters with the Unicode property White_Space.
unfoldable pub is_whitespace : ℕ → Bool
is_whitespace c =
    (leb 9 c && leb c 13)
    || nat_beq c 32
    || nat_beq c 0x85
    || nat_beq c 0xa0
    || nat_beq c 0x1680
    || (leb 0x2000 c && leb c 0x200a)
    || nat_beq c 0x2028
    || nat_beq c 0x2029
    || nat_beq c 0x202f
    || nat_beq c 0x205f
    || nat_beq c 0x3000

-- `trim_start_matches` of a test on characters.
unfoldable pub trim_start_by : (ℕ → Bool) → Text → Text
trim_start_by p [] = []
trim_start_by p (c ∷ s) = if p c then trim_start_by p s else c ∷ s

-- A character is dropped if it passes the test and nothing is left behind it.
abbrev pub keep_char : (ℕ → Bool) → ℕ → Text → Text
keep_char p c [] = if p c then [] else c ∷ []
keep_char p c (d ∷ s) = c ∷ d ∷ s

unfoldable pub trim_end_by : (ℕ → Bool) → Text → Text
trim_end_by p [] = []
trim_end_by p (c ∷ s) = keep_char p c (trim_end_by p s)

abbrev pub trim_by : (ℕ → Bool) → Text → Text
trim_by p s = trim_end_by p (trim_start_by p s)

abbrev pub trim : Text → Text
trim s = trim_by is_whitespace s

abbrev pub trim_start_matches : ℕ → Text → Text
trim_start_matches c s = trim_start_by (nat_beq c) s

abbrev pub trim_end_matches : ℕ → Text → Text
trim_end_matches c s = trim_end_by (nat_beq c) s

abbrev pub trim_matches : ℕ → Text → Text
trim_matches c s = trim_by (nat_beq c) s

unfoldable pub to_ascii_lowercase : ℕ → ℕ
to_ascii_lowercase c = if leb b'A' c && leb c b'Z' then c + 32 else c

unfoldable pub eq_ignore_ascii_case : Text → Text → Bool
unfolding to_ascii_lowercase
eq_ignore_ascii_case s t = text_beq (map to_ascii_lowercase s) (map to_ascii_lowercase t)

unfoldable pub strip_prefix : Text → Text → Option Text
strip_prefix [] s = some s
strip_prefix (c ∷ p) [] = none
strip_prefix (c ∷ p) (d ∷ s) = if nat_beq c d then strip_prefix p s else none

abbrev pub starts_with : Text → Text → Bool
starts_with p s = is_some (strip_prefix p s)

-- `s.find(p)`, as the text before the first match and the text behind it.
unfoldable pub split_at_match : Text → Text → Option (Text × Text)
split_at_match p [] = elim (strip_prefix p []) [ none ↦ none | some r ↦ some ([], r) ]
split_at_match p (c ∷ s) =
    let later = split_at_match p s >>= λ (a, b). some (c ∷ a, b) in
    elim (strip_prefix p (c ∷ s)) [ none ↦ later | some r ↦ some ([], r) ]

abbrev pub contains : Text → Text → Bool
contains p s = is_some (split_at_match p s)

-- `s.replacen(p, r, 1)`
unfoldable pub replace_first : Text → Text → Text → Text
replace_first p r s = elim (split_at_match p s) [ none ↦ s | some (a, b) ↦ a ++ (r ++ b) ]

-- Trimming leaves a text alone that begins and ends with other characters.
pub trim_start_by-stop :
    (p : ℕ → Bool) (c : ℕ) (s : Text) → p c ≡ false → trim_start_by p (c ∷ s) ≡ c ∷ s
unfolding trim_start_by
trim_start_by-stop p c s h = rw h
