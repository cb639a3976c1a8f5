-- ===== src/Strings/Ascii.antt =====
-- Texts of ASCII characters: their bytes, and what splitting and trimming do to them.
use modular_rust_reverse_pro.Base.{
  ℕ, ◌≡◌, ◌≢◌, ◌≤◌, ◌<◌, refl, false, some, [], ◌∷◌, ◌++◌, Text, All, arith, is_empty,
}
use modular_rust_reverse_pro.Strings.Chars.{is_whitespace, trim_start_by, trim}
use modular_rust_reverse_pro.Strings.Split.{split_once, split_by, split_whitespace}
use modular_rust_reverse_pro.Strings.Utf8.{
  encode_char, into_bytes, from_utf8, decode_from, lead_byte, utf8_byte,
}

-- A character with a picture, or also a space.
abbrev pub IsVisible : ℕ → Type 0
IsVisible c = (33 ≤ c) × (c ≤ 126)

abbrev pub IsPrintable : ℕ → Type 0
IsPrintable c = (32 ≤ c) × (c ≤ 126)

abbrev pub IsAscii : ℕ → Type 0
IsAscii c = c < 128

pub All-weaken : (P Q : ℕ → Type 0) (s : Text) → ((c : ℕ) → P c → Q c) → All P s → All Q s
All-weaken P Q [] h all = tt
All-weaken P Q (c ∷ s) h all = (h c all.0, All-weaken P Q s h all.1)

-- A text with a character in its middle is not empty.
pub is_empty-middle : (k : Text) (c : ℕ) (s : Text) → is_empty (k ++ c ∷ s) ≡ false
is_empty-middle [] c s = refl
is_empty-middle (d ∷ k) c s = refl

pub into_bytes_ascii : (s : Text) → All IsAscii s → into_bytes s ≡ s
unfolding into_bytes encode_char
into_bytes_ascii [] h = refl
into_bytes_ascii (c ∷ s) h = ground (arith, into_bytes_ascii s h.1)

pub from_utf8_ascii : (s : Text) → All IsAscii s → from_utf8 s ≡ some s
unfolding from_utf8 decode_from utf8_byte lead_byte
from_utf8_ascii [] h = refl
from_utf8_ascii (c ∷ s) h = ground (arith, from_utf8_ascii s h.1)

visible_whole : (c : ℕ) → IsVisible c → is_whitespace c ≡ false
unfolding is_whitespace
visible_whole c h = ground arith

split_by-word :
    (w s : Text)
    → All IsVisible w
    → split_by is_whitespace (w ++ 32 ∷ s) ≡ w ∷ split_by is_whitespace s
unfolding split_by is_whitespace
split_by-word [] s h = refl
split_by-word (c ∷ w) s h = rw (visible_whole c h.0, split_by-word w s h.1) refl

split_by-last : (w : Text) → All IsVisible w → split_by is_whitespace w ≡ w ∷ []
unfolding split_by
split_by-last [] h = refl
split_by-last (c ∷ w) h = rw (visible_whole c h.0, split_by-last w h.1) refl

-- Three words, none empty, with a space between them.
pub split_whitespace_words :
    (u v w : Text)
    → All IsVisible u
    → All IsVisible v
    → All IsVisible w
    → is_empty u ≡ false
    → is_empty v ≡ false
    → is_empty w ≡ false
    → split_whitespace (u ++ 32 ∷ (v ++ 32 ∷ w)) ≡ u ∷ v ∷ w ∷ []
unfolding split_whitespace
split_whitespace_words u v w hu hv hw eu ev ew =
    rw (split_by-word u (v ++ 32 ∷ w) hu, split_by-word v w hv, split_by-last w hw, eu, ev, ew) refl

pub split_once_first :
    (c : ℕ) (k s : Text) → All (λ d. d ≢ c) k → split_once c (k ++ c ∷ s) ≡ some (k, s)
unfolding split_once
split_once_first c [] s h = ground arith
split_once_first c (d ∷ k) s h = ground (arith, split_once_first c k s h.1)

pub trim_space : (s : Text) → trim (32 ∷ s) ≡ trim s
unfolding trim_start_by is_whitespace
trim_space s = refl

pub printable-IsAscii : (c : ℕ) → IsPrintable c → IsAscii c
printable-IsAscii c h = omega arith

pub visible-IsAscii : (c : ℕ) → IsVisible c → IsAscii c
visible-IsAscii c h = omega arith

visible-IsPrintable : (c : ℕ) → IsVisible c → IsPrintable c
visible-IsPrintable c h = omega arith

pub All-IsPrintable : (s : Text) → All IsVisible s → All IsPrintable s
All-IsPrintable s h = All-weaken IsVisible IsPrintable s visible-IsPrintable h
