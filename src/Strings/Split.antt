-- ===== src/Strings/Split.antt =====
-- `str::lines`, `split`, `splitn`, `split_once`, `rsplit_once`, `split_whitespace`, `join`.
use modular_rust_reverse_pro.Base.{
  ℕ, zero, suc, Bool, not, Option, none, some, List, [], ◌∷◌, ◌++◌, Text, nat_beq, if◌then◌else◌,
  ◌>>=◌, is_empty, retain,
}
use modular_rust_reverse_pro.Strings.Chars.{is_whitespace}

-- The text before the first `c` and the text behind it.
unfoldable pub split_once : ℕ → Text → Option (Text × Text)
split_once c [] = none
split_once c (d ∷ s) =
    let later = split_once c s >>= λ (a, b). some (d ∷ a, b) in
    if nat_beq d c then some ([], s) else later

-- A character is put in front of the first piece.
abbrev pub onto_first : ℕ → List Text → List Text
onto_first c [] = (c ∷ []) ∷ []
onto_first c (t ∷ ts) = (c ∷ t) ∷ ts

-- The pieces between the characters that pass the test, empty ones too.
unfoldable pub split_by : (ℕ → Bool) → Text → List Text
split_by p [] = [] ∷ []
split_by p (c ∷ s) = let rest = split_by p s in if p c then [] ∷ rest else onto_first c rest

abbrev pub split : ℕ → Text → List Text
split c s = split_by (λ d. nat_beq d c) s

unfoldable pub split_whitespace : Text → List Text
split_whitespace s = retain (λ t. not (is_empty t)) (split_by is_whitespace s)

-- At most `n` pieces; the last holds the rest of the text.
unfoldable pub splitn : ℕ → ℕ → Text → List Text
splitn zero c s = []
splitn (suc zero) c s = s ∷ []
splitn (suc (suc n)) c s = elim (split_once c s) [
  | none ↦ s ∷ []
  | some (a, b) ↦ a ∷ splitn (suc n) c b
]

-- A line without the carriage return that ended it.
unfoldable pub strip_cr : Text → Text
strip_cr [] = []
strip_cr (c ∷ []) = if nat_beq c 13 then [] else c ∷ []
strip_cr (c ∷ d ∷ s) = c ∷ strip_cr (d ∷ s)

-- A line ends with a line feed, or with a carriage return and a line feed. What follows the last line
-- feed is a line if it is not empty, and keeps its carriage returns.
unfoldable pub lines_from : Text → Text → List Text
lines_from cur [] = if is_empty cur then [] else cur ∷ []
lines_from cur (c ∷ s) =
    let ended = strip_cr cur ∷ lines_from [] s in
    let longer = lines_from (cur ++ c ∷ []) s in if nat_beq c 10 then ended else longer

abbrev pub lines : Text → List Text
lines s = lines_from [] s

unfoldable pub join : Text → List Text → Text
join sep [] = []
join sep (t ∷ []) = t
join sep (t ∷ u ∷ ts) = t ++ (sep ++ join sep (u ∷ ts))
