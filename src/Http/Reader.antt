-- ===== src/Http/Reader.antt =====
-- `read_http_message` of src/http/mod.rs. The stream is the list of what its reads bring.
pub mod Bounds
use modular_rust_reverse_pro.Base.{
  ℕ, zero, suc, ◌+◌, ◌-◌, ◌*◌, Bool, true, false, not, ◌&&◌, ◌||◌, Option, none, some, ◌>>=◌, List,
  [], ◌∷◌, ◌++◌, Text, lit, if◌then◌else◌, ltb, leb, is_empty, is_none, take, drop, length,
  unwrap_or,
}
use modular_rust_reverse_pro.Strings.Chars.{eq_ignore_ascii_case}
use modular_rust_reverse_pro.Strings.Numbers.{parse_u64}
use modular_rust_reverse_pro.Strings.Utf8.{Bytes, from_utf8}
use modular_rust_reverse_pro.Http.Scan.{find_hdr_end, raw_hdr, find_zero_chunk, Scan, says, panics}

abbrev pub max_header_size : ℕ
max_header_size = 65_536

abbrev pub max_body_size : ℕ
max_body_size = 16 * 1024 * 1024

abbrev pub max_read_calls : ℕ
max_read_calls = 500

pub data ReadResult : Type 0 where
  done : Bytes → ReadResult
  timed_out : ReadResult
  failed_read : Text → ReadResult
  panicked : ReadResult

-- What the peer and the clock bring: bytes that arrived together, a read that timed out (or would
-- block), or one that failed. Behind the last event the connection is closed.
pub data Event : Type 0 where
  arrived : Bytes → Event
  expired : Event
  failed : Text → Event

-- One `read` into a buffer of `n` bytes: what does not fit stays in the stream.
unfoldable pub read : ℕ → List Event → Event × List Event
read n [] = (arrived [], [])
read n (arrived b ∷ es) =
    (arrived (take n b), if leb (length b) n then es else arrived (drop n b) ∷ es)
read n (e ∷ es) = (e, es)

pub record Progress : Type 0 where
  pub bytes : Bytes
  pub hdr_done : Bool
  pub body_start : ℕ
  pub content_len : Option ℕ
  pub is_chunked : Bool

abbrev pub start : Progress
start = record {
  bytes = [];
  hdr_done = false;
  body_start = 0;
  content_len = none;
  is_chunked = false;
}

-- How a round of the loop ends: `continue`, `break`, `return ReadResult::Error(..)`, or a panic.
pub data Flow : Type 0 where
  more : Progress → Flow
  break : Progress → Flow
  fail : Text → Flow
  panic : Flow

abbrev pub body_len : Progress → ℕ
body_len s = length s.bytes - s.body_start

-- The search for the last chunk panics on some bodies.
unfoldable pub on_scan : Progress → Scan → Flow
on_scan s (says b) = if b then break s else more s
on_scan s panics = panic

-- The second half of a round, for a message with its headers complete.
unfoldable pub check_body : Progress → Option ℕ → Flow
unfolding on_scan
check_body s cl = if ltb max_body_size (body_len s) then fail (lit "body too large") else elim cl [
  | some n ↦ if leb n (body_len s) then break s else more s
  | none ↦ if s.is_chunked then on_scan s (find_zero_chunk (drop s.body_start s.bytes)) else more s
]

-- The headers are read: `t` is their text, and they end at offset `p`.
unfoldable pub on_header_text : Progress → ℕ → Text → Flow
unfolding check_body
on_header_text s p t =
    let cl = raw_hdr t (lit "Content-Length") >>= λ v. parse_u64 v in
    let chunked =
      (unwrap_or
        (raw_hdr t (lit "Transfer-Encoding") >>= λ v. some (eq_ignore_ascii_case v (lit "chunked")))
        false) in
    let s' = record s {
      hdr_done = true;
      body_start = p + 4;
      content_len = cl;
      is_chunked = chunked;
    } in
    if ltb max_body_size (unwrap_or cl 0)
    then fail (lit "body too large")
    else if is_none cl && not chunked
    then break s'
    else check_body s' cl

unfoldable pub on_decoded : Progress → ℕ → Option Text → Flow
unfolding on_header_text
on_decoded s p none = fail (lit "invalid header encoding")
on_decoded s p (some t) = on_header_text s p t

abbrev pub read_headers : Progress → ℕ → Flow
read_headers s p = on_decoded s p (from_utf8 (take p s.bytes))

-- What the search for the end of the headers said.
unfoldable pub on_header_end : Progress → Option ℕ → Flow
unfolding on_decoded
on_header_end s none = more s
on_header_end s (some p) = read_headers s p

-- A read brought the bytes `b`, at least one.
unfoldable pub on_bytes : Bytes → Progress → Flow
unfolding check_body on_header_end
on_bytes b s =
    let s' = record s { bytes = s.bytes ++ b } in
    if s.hdr_done
    then check_body s' s.content_len
    else if ltb max_header_size (length s'.bytes)
    then fail (lit "headers too large")
    else on_header_end s' (find_hdr_end s'.bytes)

-- What stands behind the loop; the flag is `timed_out`.
unfoldable pub finish : Bool → Progress → ReadResult
finish late s =
    if is_empty s.bytes
    then if late then timed_out else failed_read (lit "connection closed")
    else if late && not s.hdr_done
    then timed_out
    else if late && ltb (body_len s) (unwrap_or s.content_len 0)
    then timed_out
    else done s.bytes

-- What follows a round, with the rest of the loop.
unfoldable pub on_flow : (Progress → ReadResult) → Flow → ReadResult
on_flow next (more s) = next s
on_flow next (break s) = finish false s
on_flow next (fail m) = failed_read m
on_flow next panic = panicked

-- The `match` on what a read returns.
unfoldable pub on_event : (Progress → ReadResult) → Progress → Event → ReadResult
unfolding on_flow
on_event next s (arrived []) = finish false s
on_event next s (arrived (b ∷ bs)) = on_flow next (on_bytes (b ∷ bs) s)
on_event next s expired = finish true s
on_event next s (failed m) = failed_read m

-- The loop, with the number of reads that are left.
unfoldable pub read_loop : ℕ → ℕ → List Event → Progress → ReadResult
unfolding read on_event
read_loop zero n es s = failed_read (lit "too many read syscalls")
read_loop (suc calls) n es s =
    let (event, es') = read n es in on_event (λ s'. read_loop calls n es' s') s event

unfoldable pub read_http_message : List Event → ℕ → ReadResult
unfolding read_loop
read_http_message es buf_size = read_loop max_read_calls buf_size es start
