-- ===== src/Tests/Administering.antt =====
-- The admin interface of src/modules/admin_api.rs on one request.
use modular_rust_reverse_pro.Http.Reader.{Event, arrived}
use modular_rust_reverse_pro.Modules.AdminApi.Reading.{Reading}
use modular_rust_reverse_pro.Base.{List, ◌≡◌, refl, [], ◌∷◌, Text, lit, text_beq, arith}
use modular_rust_reverse_pro.Strings.Chars.{
  trim_start_by, trim_end_by, is_whitespace, eq_ignore_ascii_case, to_ascii_lowercase,
}
use modular_rust_reverse_pro.Strings.Split.{lines_from, strip_cr, split_once}
use modular_rust_reverse_pro.Strings.Utf8.{into_bytes, encode_char}
use modular_rust_reverse_pro.Modules.AdminApi.{extract_header, find_header, answer}
use modular_rust_reverse_pro.Modules.AdminApi.Guard.{IsHarmless, provided, answer-IsHarmless}

-- It asks for the stop of the proxy with the beginning of the key.
abbrev stop_request : Text
stop_request = lit "POST /stop HTTP/1.1\r\nX-Api-Key: k\r\n\r\n"

provided_test : into_bytes (provided stop_request) ≡ 107 ∷ []
unfolding lit text_beq lines_from strip_cr split_once extract_header find_header trim_start_by
    trim_end_by is_whitespace eq_ignore_ascii_case to_ascii_lowercase into_bytes encode_char
provided_test = refl

answer-IsHarmless_example : IsHarmless (answer (lit "k1") stop_request)
unfolding lit into_bytes encode_char
answer-IsHarmless_example =
    answer-IsHarmless (lit "k1") stop_request (rw provided_test (omega arith, tt))
      (omega arith, (omega arith, tt)) (λ h. cc) (λ e. absurd (cc (rw provided_test at e)))

-- A request that comes in two pieces.
abbrev ping_pieces : List Event
ping_pieces =
    arrived (into_bytes (lit "GET /ping HTTP/1.1\r\n")) ∷ arrived (into_bytes (lit "\r\n")) ∷ []
