-- ===== src/Http/Request.antt =====
-- src/http/request.rs
pub mod RoundTrip
use modular_rust_reverse_pro.Base.{
  ℕ, ◌+◌, Bool, not, ◌&&◌, ◌||◌, Option, none, some, ◌>>=◌, List, [], ◌∷◌, ◌++◌, Text, lit, ◌==◌,
  text_eq, if◌then◌else◌, ltb, nat_beq, any, take, drop, length,
}
use modular_rust_reverse_pro.Strings.Split.{lines, split_whitespace}
use modular_rust_reverse_pro.Strings.Numbers.{parse_u64}
use modular_rust_reverse_pro.Strings.Utf8.{Bytes, from_utf8, into_bytes}
use modular_rust_reverse_pro.Http.Headers.{
  Headers, get_hdr, set_header, parse_headers, header_lines,
}
use modular_rust_reverse_pro.Http.Scan.{find_hdr_end}

pub record HttpRequest : Type 0 where
  pub method : Text
  pub path : Text
  pub version : Text
  pub headers : Headers
  pub body : Bytes

unfoldable pub is_method : Text → Bool
is_method m =
    m == lit "GET"
    || m == lit "POST"
    || m == lit "PUT"
    || m == lit "DELETE"
    || m == lit "PATCH"
    || m == lit "HEAD"
    || m == lit "OPTIONS"
    || m == lit "CONNECT"
    || m == lit "TRACE"

-- `path.bytes().any(|b| b < 0x20 || b == 0x7F)`
unfoldable pub has_control : Text → Bool
has_control path = any (λ b. ltb b 0x20 || nat_beq b 0x7f) (into_bytes path)

unfoldable pub is_version : Text → Bool
is_version v = v == lit "HTTP/1.0" || v == lit "HTTP/1.1"

-- The request line: three words, each acceptable.
unfoldable pub request_line : List Text → Option (Text × Text × Text)
unfolding is_method has_control is_version
request_line (m ∷ path ∷ v ∷ []) =
    if is_method m && (not (has_control path) && is_version v) then some (m, path, v) else none
request_line _ = none

-- The body, from the offset `s` of the raw request `r`. That `s + len` overflows for a length near 2^64, where the source
-- panics, is not modelled; `read_http_message` refuses such a length before.
unfoldable pub request_body : Bytes → ℕ → Option ℕ → Bytes
request_body r s none = []
request_body r s (some len) = if ltb s (length r) then take len (drop s r) else []

unfoldable pub parse_lines : Bytes → ℕ → List Text → Option HttpRequest
unfolding request_line request_body
parse_lines r e [] = none
parse_lines r e (rl ∷ l) = do
  (m, path, v) ← request_line (split_whitespace rl)
  let h = parse_headers l
  let cl = get_hdr h (lit "Content-Length") >>= λ t. parse_u64 t
  some (record {
    method = m;
    path = path;
    version = v;
    headers = h;
    body = request_body r (e + 4) cl;
  })

unfoldable pub parse : Bytes → Option HttpRequest
unfolding parse_lines
parse r = do e ← find_hdr_end r; t ← from_utf8 (take e r); parse_lines r e (lines t)

unfoldable pub head_text : HttpRequest → Text
head_text q =
    q.method
    ++ (lit " "
        ++ (q.path
            ++ (lit " " ++ (q.version ++ (lit "\r\n" ++ (header_lines q.headers ++ lit "\r\n"))))))

unfoldable pub to_bytes : HttpRequest → Bytes
unfolding head_text
to_bytes q = into_bytes (head_text q) ++ q.body

abbrev pub get_header : HttpRequest → Text → Option Text
get_header q n = get_hdr q.headers n

unfoldable pub set_request_header : Text → Text → HttpRequest → HttpRequest
set_request_header n val q = record q { headers = set_header n val q.headers }
