-- ===== src/Http/Response.antt =====
-- src/http/response.rs, with `json_response` of src/modules/helpers.rs
pub mod RoundTrip
use modular_rust_reverse_pro.Base.{
  ℕ, ◌+◌, Option, none, some, ◌>>=◌, List, [], ◌∷◌, ◌++◌, Text, lit, if◌then◌else◌, ltb, nat_beq,
  take, drop, length, unwrap_or,
}
use modular_rust_reverse_pro.Strings.Split.{lines, split_once}
use modular_rust_reverse_pro.Strings.Numbers.{parse_u16, to_string}
use modular_rust_reverse_pro.Strings.Utf8.{Bytes, from_utf8, into_bytes}
use modular_rust_reverse_pro.Http.Headers.{
  Headers, get_hdr, set_header, parse_headers, header_lines,
}
use modular_rust_reverse_pro.Http.Scan.{find_hdr_end}

pub record HttpResponse : Type 0 where
  pub version : Text
  pub status_code : ℕ
  pub status_text : Text
  pub headers : Headers
  pub body : Bytes

unfoldable pub parse_lines : Bytes → ℕ → List Text → Option HttpResponse
parse_lines r e [] = none
parse_lines r e (sl ∷ l) = do
  (v, rest) ← split_once b' ' sl
  let (cs, txt) = unwrap_or (split_once b' ' rest) (rest, [])
  c ← parse_u16 cs
  some (record {
    version = v;
    status_code = c;
    status_text = txt;
    headers = parse_headers l;
    body = if ltb (e + 4) (length r) then drop (e + 4) r else [];
  })

unfoldable pub parse : Bytes → Option HttpResponse
unfolding parse_lines
parse r = do e ← find_hdr_end r; t ← from_utf8 (take e r); parse_lines r e (lines t)

unfoldable pub head_text : HttpResponse → Text
head_text p =
    p.version
    ++ (lit " "
        ++ (to_string p.status_code
            ++ (lit " "
                ++ (p.status_text ++ (lit "\r\n" ++ (header_lines p.headers ++ lit "\r\n"))))))

unfoldable pub to_bytes : HttpResponse → Bytes
unfolding head_text
to_bytes p = into_bytes (head_text p) ++ p.body

unfoldable pub reason : ℕ → Text
reason c =
    if nat_beq c 400
    then lit "Bad Request"
    else if nat_beq c 403
    then lit "Forbidden"
    else if nat_beq c 411
    then lit "Length Required"
    else if nat_beq c 413
    then lit "Payload Too Large"
    else if nat_beq c 429
    then lit "Too Many Requests"
    else if nat_beq c 431
    then lit "Request Header Fields Too Large"
    else if nat_beq c 502
    then lit "Bad Gateway"
    else if nat_beq c 503
    then lit "Service Unavailable"
    else if nat_beq c 504
    then lit "Gateway Timeout"
    else lit "Error"

unfoldable pub error : ℕ → Text → HttpResponse
unfolding reason
error c m = record {
  version = lit "HTTP/1.1";
  status_code = c;
  status_text = reason c;
  headers =
      (lit "Content-Type", lit "text/plain")
      ∷ (lit "Content-Length", to_string (length (into_bytes m)))
      ∷ (lit "Connection", lit "close")
      ∷ [];
  body = into_bytes m;
}

unfoldable pub json_response : ℕ → Text → HttpResponse
json_response c j = record {
  version = lit "HTTP/1.1";
  status_code = c;
  status_text = lit "OK";
  headers =
      (lit "Content-Type", lit "application/json")
      ∷ (lit "Content-Length", to_string (length (into_bytes j)))
      ∷ [];
  body = into_bytes j;
}

abbrev pub get_header : HttpResponse → Text → Option Text
get_header p n = get_hdr p.headers n

unfoldable pub set_response_header : Text → Text → HttpResponse → HttpResponse
set_response_header n val p = record p { headers = set_header n val p.headers }
