-- ===== src/Http/Scan/Chunks.antt =====
-- The loop of `find_zero_chunk` comes to its end.
use modular_rust_reverse_pro.Base.{
  ℕ, zero, suc, ◌+◌, ◌≤◌, ◌<◌, ◌≡◌, refl, Bool, true, false, not, ◌||◌, ◌&&◌, Option, none, some,
  ltb, leb, nat_beq, length, drop, take, text_beq, arith, Bool-cases, inl, inr, leb→le, ltb→lt, ◌⊎◌,
  if◌then◌else◌, [], ◌∷◌,
}
use modular_rust_reverse_pro.Strings.Utf8.{Bytes}
use modular_rust_reverse_pro.Strings.Numbers.{u64_bound}
use modular_rust_reverse_pro.Http.Scan.{
  Round, answer, panic, next, Scan, says, panics, size_line, chunk_size, byte_at, after_size, sized,
  chunk_round, chunk_loop, find_zero_chunk,
}

-- The loop without fuel: how it comes from offset `i` to its answer.
pub data Scans (d : Bytes) : ℕ → Scan → Type 0 where
  past_end : {i : ℕ} → length d ≤ i → Scans d i (says false)
  answered : {i : ℕ} {b : Bool} → i < length d → chunk_round d i ≡ answer b → Scans d i (says b)
  panicked : {i : ℕ} → i < length d → chunk_round d i ≡ panic → Scans d i panics
  continued :
      {i j : ℕ} {b : Scan}
      → i < length d
      → chunk_round d i ≡ next j
      → i < j
      → Scans d j b
      → Scans d i b

abbrev Beyond : ℕ → Round → Type 0
Beyond i (answer b) = Unit {0}
Beyond i panic = Unit {0}
Beyond i (next j) = i < j

if-Beyond :
    (i : ℕ) (c : Bool) (r s : Round) → Beyond i r → Beyond i s → Beyond i (if c then r else s)
if-Beyond i true r s x y = x
if-Beyond i false r s x y = y

after_size-Beyond : (d : Bytes) (i after size : ℕ) → i < after → Beyond i (after_size d after size)
unfolding after_size
after_size-Beyond d i after size h =
    let at = after + size in
    let last =
      answer (text_beq (take 2 (drop after d)) (13 ∷ 10 ∷ []) || nat_beq after (length d)) in
    let ends = byte_at d at 13 && byte_at d (at + 1) 10 in
    let jump = if ends then next (at + 2) else answer false in
    let outside = if leb (length d) (at + 1) then answer false else jump in
    let last_byte = if nat_beq (at + 1) u64_bound then panic else outside in
    if-Beyond i (nat_beq size 0) last (if leb u64_bound at then answer false else last_byte) tt (
      if-Beyond i (leb u64_bound at) (answer false) last_byte tt (
        if-Beyond i (nat_beq (at + 1) u64_bound) panic outside tt (
          if-Beyond i (leb (length d) (at + 1)) (answer false) jump tt
            (if-Beyond i ends (next (at + 2)) (answer false) (omega arith) tt))))

sized-Beyond : (d : Bytes) (i after : ℕ) (o : Option ℕ) → i < after → Beyond i (sized d after o)
unfolding sized
sized-Beyond d i after none h = tt
sized-Beyond d i after (some size) h = after_size-Beyond d i after size h

chunk_round-Beyond : (d : Bytes) (i : ℕ) → Beyond i (chunk_round d i)
unfolding chunk_round
chunk_round-Beyond d i =
    let line = size_line (drop i d) in
    let size_end = i + length line in
    let bad = leb (length d) (size_end + 1) || not (byte_at d (size_end + 1) 10) in
    if-Beyond i bad (answer false) (sized d (size_end + 2) (chunk_size line)) tt
      (sized-Beyond d i (size_end + 2) (chunk_size line) (omega arith))

-- What the loop makes of a round, once it is known what it makes of a later offset.
Scans-round :
    (d : Bytes) (i f : ℕ) (r : Round)
    → i < length d
    → chunk_round d i ≡ r
    → Beyond i r
    → ((j : ℕ) → i < j → (b : Scan) × (chunk_loop f d j ≡ some b) × Scans d j b)
    → (b : Scan) × ((elim r as (λ r'. Option Scan) [
      | answer b ↦ some (says b)
      | panic ↦ some panics
      | next j ↦ chunk_loop f d j
    ])
        ≡ some b)
      × Scans d i b
Scans-round d i f (answer b) lt e far later = (says b, refl, answered lt e)
Scans-round d i f panic lt e far later = (panics, refl, panicked lt e)
Scans-round d i f (next j) lt e far later =
    let (b, found, scans) = later j far in (b, found, continued lt e far scans)

-- With fuel beyond the end of the data the loop gives an answer.
chunk_loop-Scans :
    (f : ℕ) (d : Bytes) (i : ℕ)
    → 0 < f
    → length d < f + i
    → (b : Scan) × (chunk_loop f d i ≡ some b) × Scans d i b
unfolding chunk_loop
chunk_loop-Scans zero d i p h = elim p [ ]
chunk_loop-Scans (suc f) d i p h = elim (Bool-cases (leb (length d) i)) [
  | inl over ↦ (says false, rw over refl, past_end (leb→le (length d) i over))
  | inr inside ↦ rw inside (
      Scans-round d i f (chunk_round d i) (inside_lt inside) refl (chunk_round-Beyond d i)
        (λ j lt. chunk_loop-Scans f d j (fuel_left (inside_lt inside)) (omega arith)))
]
  where
    inside_lt : leb (length d) i ≡ false → i < length d
    inside_lt e = ground arith

    fuel_left : i < length d → 0 < f
    fuel_left lt = omega arith

-- The scan of a body of five bytes or more comes to an end, and `find_zero_chunk` returns its answer or panics: as the
-- first round does that does one of these, where each round begins behind the one before, or `false` at the end of the
-- data.
-- A shorter body has no last chunk.
pub find_zero_chunk-Scans :
    (d : Bytes)
    → ((length d < 5) × (find_zero_chunk d ≡ says false))
      ⊎ ((5 ≤ length d) × Scans d 0 (find_zero_chunk d))
unfolding find_zero_chunk
find_zero_chunk-Scans d = elim (Bool-cases (ltb (length d) 5)) [
  | inl short ↦ inl (ltb→lt (length d) 5 short, rw short refl)
  | inr long ↦
      let (b, e, scans) = chunk_loop-Scans (length d + 1) d 0 (omega arith) (omega arith) in
      inr (ground arith, rw long (rw e scans))
]
