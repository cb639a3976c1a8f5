-- ===== src/Script/Stdlib/Messages.antt =====
-- The functions of src/script/stdlib.rs that change a request or a response: compression, request ids, rewriting, and
-- the two ready responses.
pub mod Agreement
use modular_rust_reverse_pro.Base.{
  ℕ, ◌+◌, ◌%◌, ◌^◌, Bool, true, not, ◌||◌, Option, none, some, ◌>>=◌, List, [], ◌∷◌, ◌++◌, Text,
  lit, text_eq, if◌then◌else◌, ltb, leb, length, retain, HashMap, lookup, is_none, is_some,
  unwrap_or,
}
use modular_rust_reverse_pro.Strings.Chars.{
  starts_with, contains, eq_ignore_ascii_case, strip_prefix, replace_first,
}
use modular_rust_reverse_pro.Strings.Numbers.{to_string}
use modular_rust_reverse_pro.Strings.Split.{split, split_once}
use modular_rust_reverse_pro.Strings.Utf8.{Bytes, into_bytes}
use modular_rust_reverse_pro.Context.{Context, get, set}
use modular_rust_reverse_pro.Http.Headers.{Headers, set_header}
use modular_rust_reverse_pro.Http.Request.{HttpRequest, get_header, set_request_header}
use modular_rust_reverse_pro.Http.Response.{HttpResponse, set_response_header, json_response}
use modular_rust_reverse_pro.Http.Response
use modular_rust_reverse_pro.Modules.RequestId.{generate_id}
use modular_rust_reverse_pro.Script.Stdlib.Arguments.{arg, number_arg}

unfoldable pub std_compress_check : HttpRequest → Context → Context
std_compress_check req ctx = elim (get_header req (lit "Accept-Encoding")) [
  | none ↦ ctx
  | some ae ↦ if contains (lit "gzip") ae then set (lit "_accepts_gzip") (lit "1") ctx else ctx
]

-- `is_compressible` of src/script/stdlib.rs
unfoldable pub can_compress : Text → Bool
can_compress ct =
    starts_with (lit "text/") ct
    || contains (lit "json") ct
    || contains (lit "xml") ct
    || contains (lit "javascript") ct
    || contains (lit "svg") ct
    || contains (lit "css") ct

-- The response with the compressed body.
unfoldable pub encoded : Bytes → HttpResponse → HttpResponse
encoded body resp =
    let sized =
      set_response_header (lit "Content-Length") (to_string (length body))
        (set_response_header (lit "Content-Encoding") (lit "gzip") (record resp { body = body })) in
    record sized {
      headers =
          retain (λ e. not (eq_ignore_ascii_case e.0 (lit "Transfer-Encoding"))) sized.headers;
    }

-- The encoder of the crate flate2 is the argument `gzip`; `none` is one of its errors.
unfoldable pub std_compress_apply :
    (Bytes → Option Bytes) → List Text → HttpResponse → Context → HttpResponse
unfolding can_compress encoded
std_compress_apply gzip args resp ctx =
    let result : HttpResponse = elim (gzip resp.body) [
      | none ↦ resp
      | some compressed ↦
          if leb (length resp.body) (length compressed) then resp else encoded compressed resp
    ] in
    if is_none (get (lit "_accepts_gzip") ctx)
    then resp
    else if ltb (length resp.body) (number_arg args 0 256)
    then resp
    else if is_some (Response.get_header resp (lit "Content-Encoding"))
    then resp
    else if not (can_compress (unwrap_or (Response.get_header resp (lit "Content-Type")) []))
    then resp
    else result

-- The counter, the request and the context.
unfoldable pub std_request_id_inject : ℕ → ℕ → HttpRequest → Context → ℕ × HttpRequest × Context
std_request_id_inject micros counter req ctx = elim (get_header req (lit "X-Request-Id")) [
  | some id ↦
      (counter, set_request_header (lit "X-Request-Id") id req, set (lit "_request_id") id ctx)
  | none ↦
      let id = generate_id micros counter in
      (
        (counter + 1) % 2 ^ 64,
        set_request_header (lit "X-Request-Id") id req,
        set (lit "_request_id") id ctx,
      )
]

unfoldable pub std_request_id_propagate : HttpResponse → Context → HttpResponse
std_request_id_propagate resp ctx = elim (get (lit "_request_id") ctx) [
  | none ↦ resp
  | some id ↦ record resp { headers = resp.headers ++ (lit "X-Request-Id", id) ∷ [] }
]

-- `for rule in rules_str.split(';')`
unfoldable pub apply_rules : List Text → Text → Text
apply_rules [] path = path
apply_rules (rule ∷ rules) path =
    let later = apply_rules rules path in
    elim (split_once b':' rule) [
      | none ↦ later
      | some (from, to) ↦ if starts_with from path then replace_first from to path else later
    ]

-- The setting that an argument names, with or without `$`.
unfoldable pub setting_key : Text → Text
setting_key k = unwrap_or (strip_prefix (lit "$") k) k

unfoldable pub std_url_rewrite : List Text → HashMap Text Text → HttpRequest → HttpRequest
unfolding apply_rules setting_key
std_url_rewrite (from ∷ to ∷ more) config req =
    if starts_with from req.path then record req { path = replace_first from to req.path } else req
std_url_rewrite (k ∷ []) config req = elim (lookup (setting_key k) config) [
  | none ↦ req
  | some rules ↦ record req { path = apply_rules (split b';' rules) req.path }
]
std_url_rewrite [] config req = req

-- `std_metrics_prometheus`, with the text of `snapshot_prometheus`
unfoldable pub std_metrics_prometheus : Text → Option HttpResponse
std_metrics_prometheus body = some (record {
  version = lit "HTTP/1.1";
  status_code = 200;
  status_text = lit "OK";
  headers =
      (lit "Content-Type", lit "text/plain; version=0.0.4; charset=utf-8")
      ∷ (lit "Content-Length", to_string (length (into_bytes body)))
      ∷ [];
  body = into_bytes body;
})

unfoldable pub std_health_response : List Text → Option HttpResponse
std_health_response args =
    some (json_response 200 (unwrap_or (arg args 0) (lit "{\"status\":\"ok\"}")))
