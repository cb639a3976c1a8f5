-- ===== src/Tests/Messaging.antt =====
-- HTTP messages of src/http on short inputs.
use modular_rust_reverse_pro.Base.{
  ◌+◌, ◌≤◌, ◌≡◌, ◌<◌, ◌⊎◌, false, ℕ, none, refl, some, [], ◌∷◌, lit, length,
}
use modular_rust_reverse_pro.Strings.Utf8.{Bytes}
use modular_rust_reverse_pro.Http.Scan.{find_hdr_end, find_zero_chunk, says}
use modular_rust_reverse_pro.Http.Scan.Chunks.{Scans, find_zero_chunk-Scans}
use modular_rust_reverse_pro.Http.Scan.Ends.{FirstAt, Never, find_hdr_end-cases}
use modular_rust_reverse_pro.Http.Reader.{
  arrived, done, read_http_message, on_bytes, finish, max_header_size, max_body_size,
}
use modular_rust_reverse_pro.Http.Reader.Bounds.{read_http_message-bound}

abbrev hi : Bytes
hi = 72 ∷ 73 ∷ []

hi_read : read_http_message (arrived (72 ∷ []) ∷ arrived (73 ∷ []) ∷ []) 8 ≡ done hi
unfolding read_http_message on_bytes find_hdr_end finish
hi_read = refl

-- A message whose connection is closed before its headers end.
read_http_message-bound_example : length hi ≤ max_header_size + max_body_size
read_http_message-bound_example =
    read_http_message-bound (arrived (72 ∷ []) ∷ arrived (73 ∷ []) ∷ []) 8 hi hi_read

-- One chunk of a byte and the last chunk.
abbrev chunked_body : Bytes
chunked_body = lit "1\r\na\r\n0\r\n\r\n"

find_zero_chunk-Scans_example :
    ((length chunked_body < 5) × (find_zero_chunk chunked_body ≡ says false))
    ⊎ ((5 ≤ length chunked_body) × Scans chunked_body 0 (find_zero_chunk chunked_body))
find_zero_chunk-Scans_example = find_zero_chunk-Scans chunked_body

find_hdr_end-cases_example :
    ((p : ℕ) × (find_hdr_end chunked_body ≡ some p) × FirstAt chunked_body p)
    ⊎ ((find_hdr_end chunked_body ≡ none) × Never chunked_body)
find_hdr_end-cases_example = find_hdr_end-cases chunked_body
