-- ===== src/Http/Scan.antt =====
-- src/http/mod.rs: the searches for the end of the headers, for a header in the raw text, and for the
-- chunk of size zero.
pub mod Chunks
pub mod Ends
pub mod Joined
use modular_rust_reverse_pro.Base.{
  ℕ, zero, suc, ◌+◌, Bool, false, not, ◌&&◌, ◌||◌, Option, none, some, ◌>>=◌, List, [], ◌∷◌, Text,
  text_beq, if◌then◌else◌, ltb, leb, nat_beq, take, drop, length, get_elem?, unwrap_or,
}
use modular_rust_reverse_pro.Strings.Chars.{trim, eq_ignore_ascii_case}
use modular_rust_reverse_pro.Strings.Split.{lines, split, split_once}
use modular_rust_reverse_pro.Strings.Numbers.{from_str_radix, u64_bound}
use modular_rust_reverse_pro.Strings.Utf8.{Bytes, from_utf8}

abbrev pub blank_line : Bytes
blank_line = 13 ∷ 10 ∷ 13 ∷ 10 ∷ []

-- The loop of `find_hdr_end` over the offsets, the first `i` bytes passed.
unfoldable pub find_from : ℕ → Bytes → Option ℕ
find_from i [] = none
find_from i (b ∷ d) =
    let later = find_from (i + 1) d in
    if text_beq (take 4 (b ∷ d)) blank_line then some i else later

unfoldable pub find_hdr_end : Bytes → Option ℕ
unfolding find_from
find_hdr_end d = if ltb (length d) 4 then none else find_from 0 d

raw_lines : Text → List Text → Option Text
raw_lines n [] = none
raw_lines n (l ∷ ls) =
    let later = raw_lines n ls in
    elim (split_once b':' l) [
      | none ↦ later
      | some (k, v) ↦ if eq_ignore_ascii_case (trim k) n then some (trim v) else later
    ]

unfoldable pub raw_hdr : Text → Text → Option Text
unfolding raw_lines
raw_hdr t n = raw_lines n (lines t)

-- `while size_end < d.len() && d[size_end] != b'\r'`, over the bytes from the start of the chunk
unfoldable pub size_line : Bytes → Bytes
size_line [] = []
size_line (b ∷ d) = if nat_beq b 13 then [] else b ∷ size_line d

-- `s.split(';').next().unwrap_or("")`
abbrev first_piece : List Text → Text
first_piece [] = []
first_piece (t ∷ ts) = t

unfoldable pub chunk_size : Bytes → Option ℕ
chunk_size line = do
  s ← from_utf8 line
  from_str_radix 16 u64_bound (trim (first_piece (split b';' s)))

abbrev byte_at : Bytes → ℕ → ℕ → Bool
byte_at d i b = unwrap_or (get_elem? d i >>= λ c. some (nat_beq c b)) false

-- What one round of the loop decides: the answer, or the offset of the next chunk. A round panics if the chunk ends at
-- the largest `usize`: `i + 1` overflows, and where it wraps `d[i]` is out of bounds.
pub data Round : Type 0 where
  answer : Bool → Round
  panic : Round
  next : ℕ → Round

unfoldable pub after_size : Bytes → ℕ → ℕ → Round
after_size d after size =
    if nat_beq size 0
    then answer (text_beq (take 2 (drop after d)) (13 ∷ 10 ∷ []) || nat_beq after (length d))
    else let i = after + size in
      if leb u64_bound i
      then answer false
      else if nat_beq (i + 1) u64_bound
      then panic
      else if leb (length d) (i + 1)
      then answer false
      else if byte_at d i 13 && byte_at d (i + 1) 10
      then next (i + 2)
      else answer false

-- The match on the parsed size.
unfoldable pub sized : Bytes → ℕ → Option ℕ → Round
unfolding after_size
sized d after none = answer false
sized d after (some size) = after_size d after size

unfoldable pub chunk_round : Bytes → ℕ → Round
unfolding sized
chunk_round d i =
    let line = size_line (drop i d) in
    let size_end = i + length line in
    if leb (length d) (size_end + 1) || not (byte_at d (size_end + 1) 10)
    then answer false
    else sized d (size_end + 2) (chunk_size line)

-- What the search comes to.
pub data Scan : Type 0 where
  says : Bool → Scan
  panics : Scan

-- The loop, on fuel; `none` means that the fuel ran out.
unfoldable pub chunk_loop : ℕ → Bytes → ℕ → Option Scan
unfolding chunk_round
chunk_loop zero d i = none
chunk_loop (suc f) d i = if leb (length d) i then some (says false) else elim (chunk_round d i) [
  | answer b ↦ some (says b)
  | panic ↦ some panics
  | next j ↦ chunk_loop f d j
]

unfoldable pub find_zero_chunk : Bytes → Scan
unfolding chunk_loop
find_zero_chunk d =
    if ltb (length d) 5 then says false else unwrap_or (chunk_loop (length d + 1) d 0) (says false)
