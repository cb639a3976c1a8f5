-- ===== src/Http/Response/RoundTrip.antt =====
-- Responses as `to_bytes` writes them, read back by `parse`.
use mathlib.Core.List.{append_assoc}
use modular_rust_reverse_pro.Base.{
  ℕ, ◌+◌, ◌^◌, ◌≡◌, ◌≢◌, ◌<◌, refl, ap, ◌∙◌, some, [], ◌∷◌, ◌++◌, map, Text, lit, All, All-append,
  arith, length, length-append, drop, take-append_length, ltb, if◌then◌else◌,
}
use modular_rust_reverse_pro.Strings.Numbers.{to_string, u16_bound}
use modular_rust_reverse_pro.Strings.Numbers.Decimal.{
  IsDigit, to_string-digits, from_str_radix-to_string,
}
use modular_rust_reverse_pro.Strings.Utf8.{Bytes, into_bytes}
use modular_rust_reverse_pro.Strings.Ascii.{
  IsVisible, IsPrintable, IsAscii, All-weaken, All-IsPrintable, is_empty-middle, into_bytes_ascii,
  from_utf8_ascii, split_once_first,
}
use modular_rust_reverse_pro.Strings.Lines.{IsLine, joined, joined-IsAscii, words, lines-joined}
use modular_rust_reverse_pro.Http.Headers.{header_lines}
use modular_rust_reverse_pro.Http.Headers.Printing.{
  IsHeader, header_line, All-header_line, header_lines-joined, parse_headers-header_line,
}
use modular_rust_reverse_pro.Http.Scan.{blank_line}
use modular_rust_reverse_pro.Http.Scan.Joined.{find_hdr_end-joined, drop-blank_line}
use modular_rust_reverse_pro.Http.Response.{HttpResponse, parse_lines, parse, head_text, to_bytes}

-- A response that can be sent: a version without spaces, a status of 16 bits, and a reason and headers of ASCII characters with a
-- picture or spaces. The body is any bytes.
pub record IsSendable (p : HttpResponse) : Type 0 where
  pub version_visible : All IsVisible p.version
  pub status_fits : p.status_code < 2 ^ 16
  pub reason_printable : All IsPrintable p.status_text
  pub headers_sound : All IsHeader p.headers

abbrev first_line : HttpResponse → Text
first_line p = p.version ++ b' ' ∷ (to_string p.status_code ++ b' ' ∷ p.status_text)

abbrev head : HttpResponse → Text
head p = joined (first_line p) (map header_line p.headers)

head_text-head : (p : HttpResponse) → head_text p ≡ head p ++ blank_line
unfolding head_text lit
head_text-head p =
    words p.version (to_string p.status_code) p.status_text
      (13 ∷ 10 ∷ (header_lines p.headers ++ 13 ∷ 10 ∷ []))
    ∙ header_lines-joined (first_line p) p.headers (13 ∷ 10 ∷ [])

digit-IsVisible : (c : ℕ) → IsDigit c → IsVisible c
digit-IsVisible c h = omega arith

visible_no_space : (c : ℕ) → IsVisible c → c ≢ b' '
visible_no_space c h = λ e. omega (arith, e)

code-IsVisible : (n : ℕ) → All IsVisible (to_string n)
code-IsVisible n = All-weaken IsDigit IsVisible (to_string n) digit-IsVisible (to_string-digits n)

no_space : (s : Text) → All IsVisible s → All (λ c. c ≢ b' ') s
no_space s h = All-weaken IsVisible (λ c. c ≢ b' ') s visible_no_space h

first_line-IsLine : (p : HttpResponse) → IsSendable p → IsLine (first_line p)
first_line-IsLine p h =
    let code = to_string p.status_code in
    (
      All-append IsPrintable p.version (b' ' ∷ (code ++ b' ' ∷ p.status_text))
          (All-IsPrintable p.version h.version_visible)
          (
            omega arith,
            All-append IsPrintable code (b' ' ∷ p.status_text)
                (All-IsPrintable code (code-IsVisible p.status_code))
                (omega arith, h.reason_printable),
          ),
      is_empty-middle p.version b' ' (code ++ b' ' ∷ p.status_text),
    )

to_bytes-head : (p : HttpResponse) → IsSendable p → to_bytes p ≡ head p ++ (blank_line ++ p.body)
unfolding to_bytes
to_bytes-head p h =
    let lines_hold = All-header_line p.headers h.headers_sound in
    let plain =
      All-append IsAscii (head p) blank_line
        (joined-IsAscii (first_line p) (map header_line p.headers) (first_line-IsLine p h)
          lines_hold)
        (omega arith, (omega arith, (omega arith, (omega arith, tt)))) in
    ap (λ s. into_bytes s ++ p.body) (head_text-head p)
    ∙ (ap (λ s. s ++ p.body) (into_bytes_ascii (head p ++ blank_line) plain)
        ∙ append_assoc (head p) blank_line p.body)

body_behind :
    (x body : Bytes)
    → (if ltb (length x + 4) (length (x ++ (blank_line ++ body)))
        then drop (length x + 4) (x ++ (blank_line ++ body))
        else [])
      ≡ body
body_behind x [] = ground (arith, length-append x (blank_line ++ []))
body_behind x (b ∷ body) =
    ground (arith, drop-blank_line x (b ∷ body), length-append x (blank_line ++ b ∷ body))

parse_lines-head :
    (p : HttpResponse)
    → IsSendable p
    → parse_lines
        (head p ++ (blank_line ++ p.body))
        (length (head p))
        (first_line p ∷ map header_line p.headers)
      ≡ some p
unfolding parse_lines
parse_lines-head p h =
    let code = to_string p.status_code in
    rw
      (
        split_once_first b' ' p.version (code ++ b' ' ∷ p.status_text)
            (no_space p.version h.version_visible),
        split_once_first b' ' code p.status_text (no_space code (code-IsVisible p.status_code)),
        from_str_radix-to_string u16_bound p.status_code h.status_fits,
        parse_headers-header_line p.headers h.headers_sound,
        body_behind (head p) p.body,
      )
      refl

-- A response that can be sent is read back from its bytes as it was, with its version, status, reason, headers in their
-- order and body.
pub response_parse-to_bytes : (p : HttpResponse) → IsSendable p → parse (to_bytes p) ≡ some p
unfolding parse
response_parse-to_bytes p h =
    let line = first_line-IsLine p h in
    let rest = All-header_line p.headers h.headers_sound in
    let texts = map header_line p.headers in
    rw
      (
        to_bytes-head p h,
        find_hdr_end-joined (first_line p) texts p.body line rest,
        take-append_length (head p) (blank_line ++ p.body),
        from_utf8_ascii (head p) (joined-IsAscii (first_line p) texts line rest),
        lines-joined (first_line p) texts line rest,
      )
      (parse_lines-head p h)
