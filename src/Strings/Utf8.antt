-- ===== src/Strings/Utf8.antt =====
-- `str::from_utf8`, `String::from_utf8_lossy` and `String::into_bytes`.
use modular_rust_reverse_pro.Base.{
  ℕ, zero, suc, ◌+◌, ◌-◌, ◌*◌, ◌/◌, ◌%◌, ◌&&◌, Option, none, some, List, [], ◌∷◌, ◌++◌, Text, ltb,
  leb, nat_beq, if◌then◌else◌, ◌>>=◌,
}

abbrev pub Bytes : Type 0
Bytes = List ℕ

-- `char::encode_utf8`
unfoldable pub encode_char : ℕ → Bytes
encode_char c =
    if ltb c 0x80
    then c ∷ []
    else if ltb c 0x800
    then (0xc0 + c / 64) ∷ (0x80 + c % 64) ∷ []
    else if ltb c 0x1_0000
    then (0xe0 + c / 4096) ∷ (0x80 + c / 64 % 64) ∷ (0x80 + c % 64) ∷ []
    else (0xf0 + c / 262144) ∷ (0x80 + c / 4096 % 64) ∷ (0x80 + c / 64 % 64) ∷ (0x80 + c % 64) ∷ []

unfoldable pub into_bytes : Text → Bytes
into_bytes [] = []
into_bytes (c ∷ s) = encode_char c ++ into_bytes s

-- What is read of a character: the bytes that are still to come, the bits so far, and the range of the
-- next byte.
pub record Pending : Type 0 where
  pub need : ℕ
  pub bits : ℕ
  pub low : ℕ
  pub high : ℕ

abbrev pub between : Pending
between = record { need = 0; bits = 0; low = 0; high = 0 }

abbrev pub expect : ℕ → ℕ → ℕ → ℕ → Option (Pending × Option ℕ)
expect need bits low high = some (record { need = need; bits = bits; low = low; high = high }, none)

-- The first byte of a character. Overlong forms, surrogates and values above U+10FFFF are refused.
unfoldable pub lead_byte : ℕ → Option (Pending × Option ℕ)
lead_byte b =
    if ltb b 0x80
    then some (between, some b)
    else if ltb b 0xc2
    then none
    else if ltb b 0xe0
    then expect 1 (b - 0xc0) 0x80 0xbf
    else if nat_beq b 0xe0
    then expect 2 0 0xa0 0xbf
    else if nat_beq b 0xed
    then expect 2 13 0x80 0x9f
    else if ltb b 0xf0
    then expect 2 (b - 0xe0) 0x80 0xbf
    else if nat_beq b 0xf0
    then expect 3 0 0x90 0xbf
    else if ltb b 0xf4
    then expect 3 (b - 0xf0) 0x80 0xbf
    else if nat_beq b 0xf4
    then expect 3 4 0x80 0x8f
    else none

-- A later byte of a character, with the number of bytes that follow it.
unfoldable pub next_byte : ℕ → Pending → ℕ → Option (Pending × Option ℕ)
next_byte left p b =
    let bits = p.bits * 64 + (b - 0x80) in
    if leb p.low b && leb b p.high
    then if nat_beq left 0 then some (between, some bits) else expect left bits 0x80 0xbf
    else none

unfoldable pub utf8_byte : ℕ → Pending → ℕ → Option (Pending × Option ℕ)
unfolding lead_byte next_byte
utf8_byte zero p b = lead_byte b
utf8_byte (suc left) p b = next_byte left p b

abbrev pub emit : Option ℕ → Text → Text
emit none s = s
emit (some c) s = c ∷ s

unfoldable pub decode_from : Pending → Bytes → Option Text
unfolding utf8_byte
decode_from p [] = if nat_beq p.need 0 then some [] else none
decode_from p (b ∷ bs) = do (q, out) ← utf8_byte p.need p b; s ← decode_from q bs; some (emit out s)

unfoldable pub from_utf8 : Bytes → Option Text
unfolding decode_from
from_utf8 bs = decode_from between bs

-- A byte that does not continue what was read: a replacement character stands for what was read, and
-- the byte is taken as the first of a character.
unfoldable pub restart_byte : ℕ → Option (Pending × Option ℕ) → Pending × Text
unfolding lead_byte
restart_byte b (some (q, out)) = (q, emit out [])
restart_byte b none = (between, 0xfffd ∷ [])

unfoldable pub lossy_byte : Pending → ℕ → Pending × Text
unfolding utf8_byte lead_byte restart_byte
lossy_byte p b = elim (utf8_byte p.need p b) [
  | some (q, out) ↦ (q, emit out [])
  | none ↦
      if nat_beq p.need 0
      then (between, 0xfffd ∷ [])
      else let (q, out) = restart_byte b (lead_byte b) in (q, 0xfffd ∷ out)
]

unfoldable pub lossy_from : Pending → Bytes → Text
unfolding lossy_byte
lossy_from p [] = if nat_beq p.need 0 then [] else 0xfffd ∷ []
lossy_from p (b ∷ bs) = let (q, out) = lossy_byte p b in out ++ lossy_from q bs

unfoldable pub from_utf8_lossy : Bytes → Text
unfolding lossy_from
from_utf8_lossy bs = lossy_from between bs
