-- ===== src/Http/Scan/Ends.antt =====
-- Where `find_hdr_end` finds the end of the headers.
use modular_rust_reverse_pro.Base.{
  ℕ, ◌+◌, ◌<◌, ◌≡◌, refl, ◌∙◌, false, none, some, [], ◌∷◌, ltb, length, take, length-take, text_beq,
  text_beq_iff, ap, arith, Bool-cases, inl, inr, ◌⊎◌, ltb→lt,
}
use modular_rust_reverse_pro.Strings.Utf8.{Bytes}
use modular_rust_reverse_pro.Http.Scan.{blank_line, find_from, find_hdr_end}

-- The first empty line begins at this offset.
pub data FirstAt : Bytes → ℕ → Type 0 where
  here : {d : Bytes} → take 4 d ≡ blank_line → FirstAt d 0
  later :
      {b : ℕ} {d : Bytes} {k : ℕ}
      → text_beq (take 4 (b ∷ d)) blank_line ≡ false
      → FirstAt d k
      → FirstAt (b ∷ d) (k + 1)

-- No empty line begins anywhere.
pub data Never : Bytes → Type 0 where
  ended : Never []
  passed :
      {b : ℕ} {d : Bytes} → text_beq (take 4 (b ∷ d)) blank_line ≡ false → Never d → Never (b ∷ d)

find_from-cases :
    (i : ℕ) (d : Bytes)
    → ((k : ℕ) × (find_from i d ≡ some (i + k)) × FirstAt d k) ⊎ ((find_from i d ≡ none) × Never d)
unfolding find_from
find_from-cases i [] = inr (refl, ended)
find_from-cases i (b ∷ d) = elim (Bool-cases (text_beq (take 4 (b ∷ d)) blank_line)) [
  | inl hit ↦ inl (0, rw hit (ap some (omega arith)), here ((text_beq_iff _ _).0 hit))
  | inr miss ↦ elim (find_from-cases (i + 1) d) [
    | inl (k, e, at) ↦ inl (k + 1, rw miss (e ∙ ap some (omega arith)), later miss at)
    | inr (e, never) ↦ inr (rw miss e, passed miss never)
  ]
]

short_line : (d : Bytes) → length d < 4 → text_beq (take 4 d) blank_line ≡ false
short_line d h = elim (Bool-cases (text_beq (take 4 d) blank_line)) [
  | inl hit ↦
      let four : length (take 4 d) ≡ 4 = ap length ((text_beq_iff (take 4 d) blank_line).0 hit) in
      absurd (omega (arith, length-take 4 d))
  | inr miss ↦ miss
]

short-Never : (d : Bytes) → length d < 4 → Never d
short-Never [] h = ended
short-Never (b ∷ d) h = passed (short_line (b ∷ d) h) (short-Never d (omega arith))

-- The headers end at the first empty line, if there is one, and at no place otherwise.
pub find_hdr_end-cases :
    (d : Bytes)
    → ((p : ℕ) × (find_hdr_end d ≡ some p) × FirstAt d p) ⊎ ((find_hdr_end d ≡ none) × Never d)
unfolding find_hdr_end
find_hdr_end-cases d = elim (Bool-cases (ltb (length d) 4)) [
  | inl short ↦ inr (rw short refl, short-Never d (ltb→lt (length d) 4 short))
  | inr long ↦ elim (find_from-cases 0 d) [
    | inl (k, e, at) ↦ inl (k, rw long (e ∙ ap some (omega arith)), at)
    | inr (e, never) ↦ inr (rw long e, never)
  ]
]
