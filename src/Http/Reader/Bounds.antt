-- ===== src/Http/Reader/Bounds.antt =====
-- How much of a stream is read.
use modular_rust_reverse_pro.Base.{
  ℕ, zero, suc, ◌+◌, ◌≤◌, ◌≡◌, refl, Bool, true, false, not, ◌&&◌, Option, none, some, ◌>>=◌,
  unwrap_or, is_none, List, [], ◌∷◌, ◌++◌, Text, lit, text_beq, text_beq_iff, length-take, ap,
  subst, if◌then◌else◌, ltb, length, take, drop, arith, Bool-cases, inl, inr,
}
use modular_rust_reverse_pro.Strings.Chars.{eq_ignore_ascii_case}
use modular_rust_reverse_pro.Strings.Numbers.{parse_u64}
use modular_rust_reverse_pro.Strings.Utf8.{Bytes, from_utf8}
use modular_rust_reverse_pro.Http.Scan.{
  find_zero_chunk, Scan, says, panics, find_hdr_end, find_from, blank_line, raw_hdr,
}
use modular_rust_reverse_pro.Http.Reader.{
  Event, arrived, expired, failed, ReadResult, done, timed_out, failed_read, panicked, Progress,
  start, Flow, more, break, fail, panic, on_scan, body_len, check_body, on_header_text, on_decoded,
  on_header_end, on_bytes, read, on_flow, on_event, read_loop, finish, read_http_message,
  max_header_size, max_body_size, max_read_calls,
}

find_from-le : (d : Bytes) (i p : ℕ) → find_from i d ≡ some p → p + 4 ≤ i + length d
unfolding find_from
find_from-le [] i p h = absurd (cc)
find_from-le (a ∷ d) i p h = elim (Bool-cases (text_beq (take 4 (a ∷ d)) blank_line)) [
  | inl hit ↦
      let same : take 4 (a ∷ d) ≡ blank_line = (text_beq_iff (take 4 (a ∷ d)) blank_line).0 hit in
      let four : length (take 4 (a ∷ d)) ≡ 4 = ap length same in
      let at : i ≡ p = ground arith in omega (arith, length-take 4 (a ∷ d))
  | inr miss ↦ omega (arith, find_from-le d (i + 1) p (ground arith))
]

-- The headers and the body are within their limits.
pub record IsWithin (s : Progress) : Type 0 where
  pub before : s.hdr_done ≡ false → length s.bytes ≤ max_header_size
  pub start_within : s.hdr_done ≡ true → s.body_start ≤ max_header_size
  pub body_within : s.hdr_done ≡ true → length s.bytes ≤ s.body_start + max_body_size

abbrev FlowWithin : Flow → Type 0
FlowWithin (more s) = IsWithin s
FlowWithin (break s) = IsWithin s
FlowWithin (fail m) = Unit {0}
FlowWithin panic = Unit {0}

if-FlowWithin :
    (b : Bool) (f g : Flow)
    → (b ≡ true → FlowWithin f)
    → (b ≡ false → FlowWithin g)
    → FlowWithin (if b then f else g)
if-FlowWithin true f g x y = x refl
if-FlowWithin false f g x y = y refl

on_scan-FlowWithin : (s : Progress) (x : Scan) → IsWithin s → FlowWithin (on_scan s x)
unfolding on_scan
on_scan-FlowWithin s (says true) w = w
on_scan-FlowWithin s (says false) w = w
on_scan-FlowWithin s panics w = tt

check_body-FlowWithin :
    (s : Progress) (cl : Option ℕ)
    → s.hdr_done ≡ true
    → s.body_start ≤ max_header_size
    → FlowWithin (check_body s cl)
unfolding check_body
check_body-FlowWithin s none h k =
    let scan = find_zero_chunk (drop s.body_start s.bytes) in
    let rest = if s.is_chunked then on_scan s scan else more s in
    if-FlowWithin (ltb max_body_size (body_len s)) (fail (lit "body too large")) rest (λ large. tt)
      (λ small.
        let w : IsWithin s = record {
          before = λ q. absurd (cc);
          start_within = λ q. k;
          body_within = λ q. ground arith;
        } in
        if-FlowWithin s.is_chunked (on_scan s scan) (more s) (λ q. on_scan-FlowWithin s scan w)
          (λ q. w))
check_body-FlowWithin s (some n) h k = ground arith

find_hdr_end-le : (d : Bytes) (p : ℕ) → find_hdr_end d ≡ some p → p + 4 ≤ length d
unfolding find_hdr_end
find_hdr_end-le d p e = elim (Bool-cases (ltb (length d) 4)) [
  | inl short ↦ absurd (grind arith)
  | inr long ↦ omega (arith, find_from-le d 0 p (grind arith))
]

on_header_text-FlowWithin :
    (s : Progress) (p : ℕ) (t : Text)
    → length s.bytes ≤ max_header_size
    → p + 4 ≤ length s.bytes
    → FlowWithin (on_header_text s p t)
unfolding on_header_text
on_header_text-FlowWithin s p t h k =
    let cl = raw_hdr t (lit "Content-Length") >>= λ v. parse_u64 v in
    let chunked =
      (unwrap_or
        (raw_hdr t (lit "Transfer-Encoding") >>= λ v. some (eq_ignore_ascii_case v (lit "chunked")))
        false) in
    let s' = record s {
      hdr_done = true;
      body_start = p + 4;
      content_len = cl;
      is_chunked = chunked;
    } in
    let ends = is_none cl && not chunked in
    if-FlowWithin (ltb max_body_size (unwrap_or cl 0)) (fail (lit "body too large"))
      (if ends then break s' else check_body s' cl) (λ large. tt)
      (λ small.
        if-FlowWithin ends (break s') (check_body s' cl)
          (λ q. record {
            before = λ q. absurd (cc);
            start_within = λ q. omega arith;
            body_within = λ q. omega arith;
          })
          (λ q. check_body-FlowWithin s' cl refl (omega arith)))

on_decoded-FlowWithin :
    (s : Progress) (p : ℕ) (o : Option Text)
    → length s.bytes ≤ max_header_size
    → p + 4 ≤ length s.bytes
    → FlowWithin (on_decoded s p o)
unfolding on_decoded
on_decoded-FlowWithin s p none h k = tt
on_decoded-FlowWithin s p (some t) h k = on_header_text-FlowWithin s p t h k

on_header_end-FlowWithin :
    (s : Progress) (o : Option ℕ)
    → find_hdr_end s.bytes ≡ o
    → s.hdr_done ≡ false
    → length s.bytes ≤ max_header_size
    → FlowWithin (on_header_end s o)
unfolding on_header_end find_hdr_end
on_header_end-FlowWithin s none e n h = record {
  before = λ q. h;
  start_within = λ q. absurd (cc);
  body_within = λ q. absurd (cc);
}
on_header_end-FlowWithin s (some p) e n h =
    on_decoded-FlowWithin s p (from_utf8 (take p s.bytes)) h (find_hdr_end-le s.bytes p e)

on_bytes-FlowWithin : (b : Bytes) (s : Progress) → IsWithin s → FlowWithin (on_bytes b s)
unfolding on_bytes
on_bytes-FlowWithin b s w =
    let s' = record s { bytes = s.bytes ++ b } in
    let too_large = ltb max_header_size (length s'.bytes) in
    let reading =
      if too_large
      then fail (lit "headers too large")
      else on_header_end s' (find_hdr_end s'.bytes) in
    if-FlowWithin s.hdr_done (check_body s' s.content_len) reading
      (λ e. check_body-FlowWithin s' s.content_len e (w.start_within e))
      (λ e.
        if-FlowWithin too_large (fail (lit "headers too large"))
          (on_header_end s' (find_hdr_end s'.bytes)) (λ q. tt)
          (λ q. on_header_end-FlowWithin s' (find_hdr_end s'.bytes) refl e (ground arith)))

-- A message that is returned was in the buffer.
DoneWithin : ReadResult → Type 0
DoneWithin (done d) = length d ≤ max_header_size + max_body_size
DoneWithin timed_out = Unit {0}
DoneWithin (failed_read m) = Unit {0}
DoneWithin panicked = Unit {0}

finish-DoneWithin : (late : Bool) (s : Progress) → IsWithin s → DoneWithin (finish late s)
unfolding finish DoneWithin
finish-DoneWithin late s w = ground arith

on_flow-DoneWithin :
    (next : Progress → ReadResult) (f : Flow)
    → ((s : Progress) → IsWithin s → DoneWithin (next s))
    → FlowWithin f
    → DoneWithin (on_flow next f)
unfolding on_flow DoneWithin
on_flow-DoneWithin next (more s) k w = k s w
on_flow-DoneWithin next (break s) k w = finish-DoneWithin false s w
on_flow-DoneWithin next (fail m) k w = tt
on_flow-DoneWithin next panic k w = tt

on_event-DoneWithin :
    (next : Progress → ReadResult) (s : Progress) (e : Event)
    → ((s' : Progress) → IsWithin s' → DoneWithin (next s'))
    → IsWithin s
    → DoneWithin (on_event next s e)
unfolding on_event DoneWithin
on_event-DoneWithin next s (arrived []) k w = finish-DoneWithin false s w
on_event-DoneWithin next s (arrived (b ∷ bs)) k w =
    on_flow-DoneWithin next (on_bytes (b ∷ bs) s) k (on_bytes-FlowWithin (b ∷ bs) s w)
on_event-DoneWithin next s expired k w = finish-DoneWithin true s w
on_event-DoneWithin next s (failed m) k w = tt

read_loop-DoneWithin :
    (calls n : ℕ) (es : List Event) (s : Progress)
    → IsWithin s
    → DoneWithin (read_loop calls n es s)
unfolding read_loop DoneWithin
read_loop-DoneWithin zero n es s w = tt
read_loop-DoneWithin (suc calls) n es s w =
    let es' = (read n es).1 in
    on_event-DoneWithin (λ s'. read_loop calls n es' s') s (read n es).0
      (λ s' w'. read_loop-DoneWithin calls n es' s' w') w

-- However the bytes of a message arrive, a message that is returned is no longer than the limits
-- on the headers and on the body together.
pub read_http_message-bound :
    (es : List Event) (n : ℕ) (d : Bytes)
    → read_http_message es n ≡ done d
    → length d ≤ max_header_size + max_body_size
unfolding read_http_message DoneWithin
read_http_message-bound es n d e = subst DoneWithin e (
    read_loop-DoneWithin max_read_calls n es start (record {
      before = λ q. omega arith;
      start_within = λ q. absurd (cc);
      body_within = λ q. absurd (cc);
    }))
