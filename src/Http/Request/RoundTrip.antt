-- ===== src/Http/Request/RoundTrip.antt =====
-- Requests as `to_bytes` writes them, read back by `parse`.
use mathlib.Core.List.{append_assoc, append-nil}
use modular_rust_reverse_pro.Base.{
  ℕ, ◌+◌, ◌≡◌, refl, sym, ap, subst, ◌∙◌, true, false, ◌||◌, Option, none, some, ◌>>=◌, [], ◌∷◌,
  ◌++◌, map, Text, text_beq, lit, All, All-append, arith, length, length-append, take, drop,
  take-append_length, is_empty, any, ltb, nat_beq, inl, inr, ◌⊎◌,
}
use modular_rust_reverse_pro.Strings.Numbers.{parse_u64}
use modular_rust_reverse_pro.Strings.Utf8.{Bytes, into_bytes}
use modular_rust_reverse_pro.Strings.Ascii.{
  IsVisible, IsPrintable, IsAscii, All-weaken, All-IsPrintable, visible-IsAscii, is_empty-middle,
  into_bytes_ascii, from_utf8_ascii, split_whitespace_words,
}
use modular_rust_reverse_pro.Strings.Lines.{IsLine, joined, joined-IsAscii, words, lines-joined}
use modular_rust_reverse_pro.Http.Headers.{get_hdr, header_lines}
use modular_rust_reverse_pro.Http.Headers.Printing.{
  IsHeader, header_line, All-header_line, header_lines-joined, parse_headers-header_line,
}
use modular_rust_reverse_pro.Http.Scan.{blank_line}
use modular_rust_reverse_pro.Http.Scan.Joined.{find_hdr_end-joined, drop-blank_line}
use modular_rust_reverse_pro.Http.Request.{
  HttpRequest, is_method, has_control, is_version, request_line, request_body, parse_lines, parse,
  head_text, to_bytes,
}

-- The body has the length that the headers tell, or there is none.
abbrev pub IsFramed : HttpRequest → Type 0
IsFramed q =
    (q.body ≡ [])
    ⊎ ((get_hdr q.headers (lit "Content-Length") >>= (λ t. parse_u64 t)) ≡ some (length q.body))

-- A request that can be sent: a method and a version that the parser knows, a path and headers of ASCII characters
-- with a picture (a space may stand within a header), and a framed body of any bytes.
pub record IsSendable (q : HttpRequest) : Type 0 where
  pub method_known : is_method q.method ≡ true
  pub method_visible : All IsVisible q.method
  pub path_visible : All IsVisible q.path
  pub path_given : is_empty q.path ≡ false
  pub version_known : is_version q.version ≡ true
  pub version_visible : All IsVisible q.version
  pub headers_sound : All IsHeader q.headers
  pub framed : IsFramed q

abbrev first_line : HttpRequest → Text
first_line q = q.method ++ b' ' ∷ (q.path ++ b' ' ∷ q.version)

-- The head without its last line break and the blank line.
abbrev head : HttpRequest → Text
head q = joined (first_line q) (map header_line q.headers)

head_text-head : (q : HttpRequest) → head_text q ≡ head q ++ blank_line
unfolding head_text lit
head_text-head q =
    words q.method q.path q.version (13 ∷ 10 ∷ (header_lines q.headers ++ 13 ∷ 10 ∷ []))
    ∙ header_lines-joined (first_line q) q.headers (13 ∷ 10 ∷ [])

first_line-IsLine : (q : HttpRequest) → IsSendable q → IsLine (first_line q)
first_line-IsLine q h =
    let printable = λ (s : Text) (v : All IsVisible s). All-IsPrintable s v in
    (
      All-append IsPrintable q.method (b' ' ∷ (q.path ++ b' ' ∷ q.version))
          (printable q.method h.method_visible)
          (
            omega arith,
            All-append IsPrintable q.path (b' ' ∷ q.version) (printable q.path h.path_visible)
                (omega arith, printable q.version h.version_visible),
          ),
      is_empty-middle q.method b' ' (q.path ++ b' ' ∷ q.version),
    )

visible_uncontrolled :
    (s : Text) → All IsVisible s → any (λ b. ltb b 0x20 || nat_beq b 0x7f) s ≡ false
visible_uncontrolled [] h = refl
visible_uncontrolled (c ∷ s) h = ground (arith, visible_uncontrolled s h.1)

path-has_control : (s : Text) → All IsVisible s → has_control s ≡ false
unfolding has_control
path-has_control s h =
    rw (into_bytes_ascii s (All-weaken IsVisible IsAscii s visible-IsAscii h))
      (visible_uncontrolled s h)

request_body_empty :
    (x : Bytes) (cl : Option ℕ) → request_body (x ++ (blank_line ++ [])) (length x + 4) cl ≡ []
unfolding request_body
request_body_empty x none = refl
request_body_empty x (some len) = ground (arith, length-append x (blank_line ++ []))

body_behind :
    (x body : Bytes) → take (length body) (drop (length x + 4) (x ++ (blank_line ++ body))) ≡ body
body_behind x body =
    rw (drop-blank_line x body)
      (ap (λ b. take (length body) b) (sym (append-nil body)) ∙ take-append_length body [])

request_body_given :
    (x body : Bytes)
    → request_body (x ++ (blank_line ++ body)) (length x + 4) (some (length body)) ≡ body
unfolding request_body
request_body_given x [] = request_body_empty x (some 0)
request_body_given x (b ∷ body) =
    ground (arith, body_behind x (b ∷ body), length-append x (blank_line ++ b ∷ body))

abbrev content_length : HttpRequest → Option ℕ
content_length q = get_hdr q.headers (lit "Content-Length") >>= λ t. parse_u64 t

request_body-framed :
    (q : HttpRequest) (x : Bytes)
    → IsFramed q
    → request_body (x ++ (blank_line ++ q.body)) (length x + 4) (content_length q) ≡ q.body
request_body-framed q x (inl e) =
    subst (λ b. request_body (x ++ (blank_line ++ b)) (length x + 4) (content_length q) ≡ b) (sym e)
      (request_body_empty x (content_length q))
request_body-framed q x (inr e) = rw e (request_body_given x q.body)

to_bytes-head : (q : HttpRequest) → IsSendable q → to_bytes q ≡ head q ++ (blank_line ++ q.body)
unfolding to_bytes
to_bytes-head q h =
    let lines_hold = All-header_line q.headers h.headers_sound in
    let plain =
      All-append IsAscii (head q) blank_line
        (joined-IsAscii (first_line q) (map header_line q.headers) (first_line-IsLine q h)
          lines_hold)
        (omega arith, (omega arith, (omega arith, (omega arith, tt)))) in
    ap (λ s. into_bytes s ++ q.body) (head_text-head q)
    ∙ (ap (λ s. s ++ q.body) (into_bytes_ascii (head q ++ blank_line) plain)
        ∙ append_assoc (head q) blank_line q.body)

method_given : (m : Text) → is_method m ≡ true → is_empty m ≡ false
unfolding is_method lit text_beq
method_given [] h = cc
method_given (c ∷ m) h = refl

version_given : (v : Text) → is_version v ≡ true → is_empty v ≡ false
unfolding is_version lit text_beq
version_given [] h = cc
version_given (c ∷ v) h = refl

parse_lines-head :
    (q : HttpRequest)
    → IsSendable q
    → parse_lines
        (head q ++ (blank_line ++ q.body))
        (length (head q))
        (first_line q ∷ map header_line q.headers)
      ≡ some q
unfolding parse_lines request_line
parse_lines-head q h =
    rw
      (
        split_whitespace_words q.method q.path q.version h.method_visible h.path_visible
            h.version_visible (method_given q.method h.method_known) h.path_given
            (version_given q.version h.version_known),
        h.method_known,
        path-has_control q.path h.path_visible,
        h.version_known,
        parse_headers-header_line q.headers h.headers_sound,
        request_body-framed q (head q) h.framed,
      )
      refl

-- A request that can be sent is read back from its bytes as it was, with its method, path, version, headers in
-- their order and body.
pub request_parse-to_bytes : (q : HttpRequest) → IsSendable q → parse (to_bytes q) ≡ some q
unfolding parse
request_parse-to_bytes q h =
    let line = first_line-IsLine q h in
    let rest = All-header_line q.headers h.headers_sound in
    let texts = map header_line q.headers in
    rw
      (
        to_bytes-head q h,
        find_hdr_end-joined (first_line q) texts q.body line rest,
        take-append_length (head q) (blank_line ++ q.body),
        from_utf8_ascii (head q) (joined-IsAscii (first_line q) texts line rest),
        lines-joined (first_line q) texts line rest,
      )
      (parse_lines-head q h)
