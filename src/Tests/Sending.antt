-- ===== src/Tests/Sending.antt =====
-- Messages that are printed and read back, on short messages.
use modular_rust_reverse_pro.Base.{
  ℕ, ◌≡◌, ◌≢◌, ◌≤◌, refl, inr, true, not, ◌&&◌, some, [], ◌∷◌, Text, lit, text_beq, All, all, leb,
  nat_beq, arith,
}
use modular_rust_reverse_pro.Strings.Chars.{
  trim_start_by, trim_end_by, is_whitespace, eq_ignore_ascii_case, to_ascii_lowercase,
}
use modular_rust_reverse_pro.Strings.Numbers.{from_str_radix, digits_value, to_digit}
use modular_rust_reverse_pro.Http.Headers.{get_hdr}
use modular_rust_reverse_pro.Http.Request.{HttpRequest, is_method, is_version}
use modular_rust_reverse_pro.Http.Request
use modular_rust_reverse_pro.Http.Request.RoundTrip as RequestRoundTrip
use modular_rust_reverse_pro.Http.Response.{HttpResponse}
use modular_rust_reverse_pro.Http.Response
use modular_rust_reverse_pro.Http.Response.RoundTrip as ResponseRoundTrip
use modular_rust_reverse_pro.Http.Headers.Printing.{IsHeader}

abbrev posted : HttpRequest
posted = record {
  method = lit "PUT";
  path = lit "/a";
  version = lit "HTTP/1.1";
  headers = (lit "Content-Length", lit "3") ∷ [];
  body = 13 ∷ 10 ∷ 255 ∷ [];
}

-- The conditions on characters, by a test.
between-All :
    (low : ℕ) (s : Text)
    → all (λ c. leb low c && leb c 126) s ≡ true
    → All (λ c. (low ≤ c) × (c ≤ 126)) s
between-All low [] h = tt
between-All low (c ∷ s) h = (ground arith, between-All low s (ground arith))

without-All : (d : ℕ) (s : Text) → all (λ c. not (nat_beq c d)) s ≡ true → All (λ c. c ≢ d) s
without-All d [] h = tt
without-All d (c ∷ s) h = (ground arith, without-All d s (ground arith))

length-IsHeader : IsHeader (lit "Content-Length", lit "3")
unfolding lit trim_start_by trim_end_by is_whitespace
length-IsHeader = record {
  name_printable = between-All 32 (lit "Content-Length") refl;
  no_colon = without-All b':' (lit "Content-Length") refl;
  name_trimmed = refl;
  value_printable = between-All 32 (lit "3") refl;
  value_trimmed = refl;
}

posted-IsSendable : RequestRoundTrip.IsSendable posted
unfolding lit is_method is_version text_beq get_hdr eq_ignore_ascii_case to_ascii_lowercase
    from_str_radix digits_value to_digit
posted-IsSendable = record {
  method_known = refl;
  method_visible = between-All 33 (lit "PUT") refl;
  path_visible = between-All 33 (lit "/a") refl;
  path_given = refl;
  version_known = refl;
  version_visible = between-All 33 (lit "HTTP/1.1") refl;
  headers_sound = (length-IsHeader, tt);
  framed = inr refl;
}

request_parse-to_bytes_example : Request.parse (Request.to_bytes posted) ≡ some posted
request_parse-to_bytes_example = RequestRoundTrip.request_parse-to_bytes posted posted-IsSendable

abbrev created : HttpResponse
created = record {
  version = lit "HTTP/1.1";
  status_code = 201;
  status_text = lit "Created, yes";
  headers = (lit "Content-Length", lit "3") ∷ [];
  body = 13 ∷ 10 ∷ 255 ∷ [];
}

created-IsSendable : ResponseRoundTrip.IsSendable created
unfolding lit
created-IsSendable = record {
  version_visible = between-All 33 (lit "HTTP/1.1") refl;
  status_fits = omega arith;
  reason_printable = between-All 32 (lit "Created, yes") refl;
  headers_sound = (length-IsHeader, tt);
}

response_parse-to_bytes_example : Response.parse (Response.to_bytes created) ≡ some created
response_parse-to_bytes_example =
    ResponseRoundTrip.response_parse-to_bytes created created-IsSendable
