-- ===== src/Modules/Compression.antt =====
-- src/modules/compression.rs: gzip compression of responses. The encoder of the crate `flate2` is a parameter;
-- `none` is one of its errors.
pub mod Encoding
use modular_rust_reverse_pro.Base.{
  ℕ, Bool, true, false, not, ◌||◌, Option, none, some, List, [], ◌∷◌, Text, lit, if◌then◌else◌, ltb,
  leb, length, retain, is_none, is_some, unwrap_or,
}
use modular_rust_reverse_pro.Strings.Chars.{starts_with, contains, eq_ignore_ascii_case}
use modular_rust_reverse_pro.Strings.Numbers.{to_string}
use modular_rust_reverse_pro.Strings.Utf8.{Bytes}
use modular_rust_reverse_pro.Context.{Context, get, set}
use modular_rust_reverse_pro.Http.Headers.{Headers, set_header}
use modular_rust_reverse_pro.Http.Request.{HttpRequest}
use modular_rust_reverse_pro.Http.Request
use modular_rust_reverse_pro.Http.Response.{HttpResponse}
use modular_rust_reverse_pro.Http.Response

unfoldable pub is_compressible : Text → Bool
is_compressible ct =
    starts_with (lit "text/") ct
    || contains (lit "json") ct
    || contains (lit "xml") ct
    || contains (lit "javascript") ct
    || contains (lit "svg") ct
    || contains (lit "css") ct

unfoldable pub handle : HttpRequest → Context → Context
handle req ctx = elim (Request.get_header req (lit "Accept-Encoding")) [
  | none ↦ ctx
  | some ae ↦ if contains (lit "gzip") ae then set (lit "_accepts_gzip") (lit "1") ctx else ctx
]

-- The response with its body replaced.
unfoldable pub compressed_headers : Bytes → Headers → Headers
compressed_headers body h =
    retain (λ e. not (eq_ignore_ascii_case e.0 (lit "Transfer-Encoding")))
      (set_header (lit "Content-Length") (to_string (length body))
        (set_header (lit "Content-Encoding") (lit "gzip") h))

-- The response is left alone for one of these reasons.
unfoldable pub is_skipped : ℕ → HttpResponse → Context → Bool
unfolding is_compressible
is_skipped min_size resp ctx =
    is_none (get (lit "_accepts_gzip") ctx)
    || ltb (length resp.body) min_size
    || is_some (Response.get_header resp (lit "Content-Encoding"))
    || not (is_compressible (unwrap_or (Response.get_header resp (lit "Content-Type")) []))

unfoldable pub on_response : (Bytes → Option Bytes) → ℕ → HttpResponse → Context → HttpResponse
unfolding is_skipped compressed_headers
on_response gzip min_size resp ctx =
    if is_skipped min_size resp ctx then resp else elim (gzip resp.body) [
      | none ↦ resp
      | some compressed ↦ if leb (length resp.body) (length compressed) then resp else record resp {
        body = compressed;
        headers = compressed_headers compressed resp.headers;
      }
    ]
