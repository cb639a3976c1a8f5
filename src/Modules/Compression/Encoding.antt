-- ===== src/Modules/Compression/Encoding.antt =====
-- What compression changes.
use modular_rust_reverse_pro.Base.{
  ℕ, ◌<◌, ◌≡◌, refl, ◌∙◌, ◌⊎◌, inl, inr, true, false, Option, none, some, lit, leb, length,
  text_beq, arith, Bool-cases, Option-cases,
}
use modular_rust_reverse_pro.Strings.Chars.{eq_ignore_ascii_case}
use modular_rust_reverse_pro.Strings.Numbers.{to_string}
use modular_rust_reverse_pro.Strings.Utf8.{Bytes}
use modular_rust_reverse_pro.Context.{Context}
use modular_rust_reverse_pro.Http.Headers.{Headers, get_hdr, set_header}
use modular_rust_reverse_pro.Http.Headers.Laws.{get_hdr-set_header, get_hdr-retain}
use modular_rust_reverse_pro.Http.Response.{HttpResponse}
use modular_rust_reverse_pro.Modules.Compression.{on_response, is_skipped, compressed_headers}

-- The names that the compressed response sets differ from one another, but for case.
names_differ :
    (eq_ignore_ascii_case (lit "Transfer-Encoding") (lit "Content-Encoding") ≡ false)
    × (eq_ignore_ascii_case (lit "Transfer-Encoding") (lit "Content-Length") ≡ false)
    × (eq_ignore_ascii_case (lit "Content-Length") (lit "Content-Encoding") ≡ false)
    × (eq_ignore_ascii_case (lit "Content-Length") (lit "Content-Length") ≡ true)
    × (eq_ignore_ascii_case (lit "Content-Encoding") (lit "Content-Encoding") ≡ true)
    × (eq_ignore_ascii_case (lit "Transfer-Encoding") (lit "Transfer-Encoding") ≡ true)
unfolding eq_ignore_ascii_case lit text_beq
names_differ = (refl, refl, refl, refl, refl, refl)

-- The headers of a response with the compressed body `body`.
pub record Describes (body : Bytes) (h : Headers) : Type 0 where
  pub encoding : get_hdr h (lit "Content-Encoding") ≡ some (lit "gzip")
  pub content_length : get_hdr h (lit "Content-Length") ≡ some (to_string (length body))
  pub not_chunked : get_hdr h (lit "Transfer-Encoding") ≡ none

compressed_headers-Describes :
    (body : Bytes) (h : Headers) → Describes body (compressed_headers body h)
unfolding compressed_headers
compressed_headers-Describes body h =
    let te = lit "Transfer-Encoding" in
    let ce = lit "Content-Encoding" in
    let cl = lit "Content-Length" in
    let set_ce = set_header ce (lit "gzip") h in
    let set_cl = set_header cl (to_string (length body)) set_ce in
    let (te_ce, te_cl, cl_ce, cl_cl, ce_ce, te_te) = names_differ in
    record {
      encoding =
          get_hdr-retain te ce set_cl
          ∙ rw te_ce (
              get_hdr-set_header cl ce _ set_ce
              ∙ rw cl_ce (get_hdr-set_header ce ce _ h ∙ rw ce_ce));
      content_length =
          get_hdr-retain te cl set_cl ∙ rw te_cl (get_hdr-set_header cl cl _ set_ce ∙ rw cl_cl);
      not_chunked = get_hdr-retain te te set_cl ∙ rw te_te;
    }

-- A response is passed on as it was, or it gets the encoder's output for its body, which is shorter, with
-- headers that say so: the encoding is gzip, the length is that of the new body, and it is not chunked. The
-- status does not change.
pub on_response-cases :
    (gzip : Bytes → Option Bytes) (min_size : ℕ) (resp : HttpResponse) (ctx : Context)
    → let out = on_response gzip min_size resp ctx in
      (out ≡ resp)
      ⊎ ((gzip resp.body ≡ some out.body)
          × (length out.body < length resp.body)
          × Describes out.body out.headers
          × (out.status_code ≡ resp.status_code)
          × (is_skipped min_size resp ctx ≡ false))
unfolding on_response
on_response-cases gzip min_size resp ctx = elim (Bool-cases (is_skipped min_size resp ctx)) [
  | inl skip ↦ inl (rw (skip, on_response))
  | inr go ↦ elim (Option-cases (gzip resp.body)) [
    | inl fails ↦ inl (rw (go, fails, on_response))
    | inr (z, e) ↦ elim (Bool-cases (leb (length resp.body) (length z))) [
      | inl longer ↦ inl (rw (go, e, longer, on_response))
      | inr shorter ↦ inr (
          rw (go, e, shorter, on_response)
            (refl, ground arith, compressed_headers-Describes z resp.headers, refl, refl))
    ]
  ]
]
