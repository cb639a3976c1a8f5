-- ===== src/Http/Headers.antt =====
-- Header lists: `get_hdr` of src/http/mod.rs, and `set_header`, which src/http/request.rs and
-- src/http/response.rs define alike.
pub mod Laws
pub mod Printing
use modular_rust_reverse_pro.Base.{
  ℕ, Bool, true, false, not, Option, none, some, List, [], ◌∷◌, ◌++◌, Text, lit, if◌then◌else◌,
  is_empty, ◌>>=◌,
}
use modular_rust_reverse_pro.Strings.Chars.{eq_ignore_ascii_case, trim}
use modular_rust_reverse_pro.Strings.Split.{split_once}

abbrev pub Headers : Type 0
Headers = List (Text × Text)

unfoldable pub get_hdr : Headers → Text → Option Text
get_hdr [] n = none
get_hdr ((k, v) ∷ h) n = if eq_ignore_ascii_case k n then some v else get_hdr h n

-- The first header of that name gets the value; without one, the header goes to the end.
unfoldable pub set_header : Text → Text → Headers → Headers
set_header n val [] = (n, val) ∷ []
set_header n val ((k, v) ∷ h) =
    if eq_ignore_ascii_case k n then (k, val) ∷ h else (k, v) ∷ set_header n val h

-- The header loop of both `parse` functions: it ends at an empty line and skips a line without a colon.
unfoldable pub parse_headers : List Text → Headers
parse_headers [] = []
parse_headers (ln ∷ l) =
    let more = parse_headers l in
    if is_empty ln
    then []
    else elim (split_once b':' ln) [ none ↦ more | some (k, v) ↦ (trim k, trim v) ∷ more ]

-- The header lines that `to_bytes` writes.
unfoldable pub header_lines : Headers → Text
header_lines [] = []
header_lines ((k, v) ∷ h) = k ++ (lit ": " ++ (v ++ (lit "\r\n" ++ header_lines h)))
