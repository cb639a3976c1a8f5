-- ===== src/Modules/AdminApi.antt =====
-- src/modules/admin_api.rs: what the admin interface answers to a request that was read, and what it does. The texts
-- that it prints of its state are named here.
pub mod Guard
pub mod Reading
pub mod Repair
pub mod Printing
use modular_rust_reverse_pro.Base.{
  ℕ, zero, suc, ◌+◌, ◌*◌, ◌/◌, ◌%◌, Bool, true, false, not, ◌&&◌, ◌||◌, Option, none, some, List,
  [], ◌∷◌, ◌++◌, Text, lit, ◌==◌, text_eq, if◌then◌else◌, nat_beq, ltb, length, is_empty, drop,
  unwrap_or, max,
}
use modular_rust_reverse_pro.Strings.Chars.{trim, eq_ignore_ascii_case, starts_with}
use modular_rust_reverse_pro.Strings.Numbers.{to_string}
use modular_rust_reverse_pro.Strings.Split.{lines, split_once, split_whitespace}
use modular_rust_reverse_pro.Strings.Utf8.{Bytes, into_bytes}

-- `x ^ y` and `x | y` on the lowest `bits` bits.
unfoldable pub xor : ℕ → ℕ → ℕ → ℕ
xor zero x y = 0
xor (suc bits) x y = (x % 2 + y % 2) % 2 + 2 * xor bits (x / 2) (y / 2)

unfoldable pub or : ℕ → ℕ → ℕ → ℕ
or zero x y = 0
or (suc bits) x y = max (x % 2) (y % 2) + 2 * or bits (x / 2) (y / 2)

-- The loop over the pairs of bytes.
unfoldable pub differences : ℕ → Bytes → Bytes → ℕ
unfolding xor or
differences diff [] b = diff
differences diff (x ∷ a) [] = diff
differences diff (x ∷ a) (y ∷ b) = differences (or 8 diff (xor 8 x y)) a b

unfoldable pub constant_time_eq : Bytes → Bytes → Bool
unfolding differences
constant_time_eq a b =
    if not (nat_beq (length a) (length b)) then false else nat_beq (differences 0 a b) 0

unfoldable pub find_header : Text → List Text → Option Text
find_header name [] = none
find_header name (line ∷ ls) =
    let later = find_header name ls in
    elim (split_once b':' line) [
      | none ↦ later
      | some (k, v) ↦ if eq_ignore_ascii_case (trim k) name then some (trim v) else later
    ]

unfoldable pub extract_header : Text → Text → Option Text
unfolding find_header
extract_header raw name = find_header name (drop 1 (lines raw))

-- What is printed: a fixed text, or a text about the state of the program.
pub data Page : Type 0 where
  fixed : Text → Page
  status connections metrics config server protocols tls mods config_verify config_repair : Page

-- What is done besides the answer: the proxy stops, or stops to start again, or repairs its configuration file.
pub data Action : Type 0 where
  nothing stop reload repair : Action

pub record Reply : Type 0 where
  pub code : ℕ
  pub page : Page
  pub action : Action

abbrev pub say : ℕ → Text → Reply
say code body = record { code = code; page = fixed body; action = nothing }

abbrev pub show : Page → Reply
show page = record { code = 200; page = page; action = nothing }

unfoldable pub route_get : Text → Reply
route_get path =
    if path == lit "/"
    then say 200 (
        lit
          "{\"endpoints\":[\"/ping\",\"/status\",\"/config\",\"/server\",\"/stop\",\"/reload\",\"/connections\",\"/metrics\",\"/mods\",\"/protocols\",\"/tls\",\"/config/verify\",\"/config/repair\"]}")
    else if path == lit "/ping"
    then say 200 (lit "{\"ping\":\"pong\"}")
    else if path == lit "/status"
    then show status
    else if path == lit "/connections"
    then show connections
    else if path == lit "/metrics"
    then show metrics
    else if path == lit "/config"
    then show config
    else if path == lit "/server"
    then show server
    else if path == lit "/protocols"
    then show protocols
    else if path == lit "/tls"
    then show tls
    else if path == lit "/mods"
    then show mods
    else if path == lit "/config/verify"
    then show config_verify
    else say 404 (lit "{\"error\":\"not found\"}")

unfoldable pub route_post : Text → Reply
route_post path =
    if path == lit "/config/repair"
    then record { code = 200; page = config_repair; action = repair }
    else if path == lit "/stop"
    then record { code = 200; page = fixed (lit "{\"action\":\"stopping\"}"); action = stop }
    else if path == lit "/reload"
    then record { code = 200; page = fixed (lit "{\"action\":\"reloading\"}"); action = reload }
    else say 404 (lit "{\"error\":\"not found\"}")

unfoldable pub route : Text → Text → Reply
unfolding route_get route_post
route method path =
    if method == lit "GET"
    then route_get path
    else if method == lit "POST"
    then route_post path
    else say 404 (lit "{\"error\":\"not found\"}")

unfoldable pub is_allowed : Text → Bool
is_allowed m =
    m == lit "GET"
    || m == lit "POST"
    || m == lit "PUT"
    || m == lit "DELETE"
    || m == lit "PATCH"
    || m == lit "HEAD"
    || m == lit "OPTIONS"

-- The request is let through: no key is set, it asks for `/ping`, or it brings the key.
unfoldable pub is_authorized : Text → Text → Text → Bool
unfolding constant_time_eq extract_header
is_authorized api_key raw path =
    is_empty api_key
    || path == lit "/ping"
    || constant_time_eq (into_bytes (unwrap_or (extract_header raw (lit "X-API-Key")) []))
        (into_bytes api_key)

unfoldable pub on_words : Text → Text → List Text → Reply
unfolding is_allowed is_authorized route
on_words api_key raw (method ∷ path ∷ more) =
    if not (is_allowed method)
    then say 405 (lit "{\"error\":\"method not allowed\"}")
    else if not (starts_with (lit "/") path)
    then say 400 (lit "{\"error\":\"invalid path\"}")
    else if not (is_authorized api_key raw path)
    then say 403 (lit "{\"error\":\"unauthorized\"}")
    else route method path
on_words api_key raw _ = say 400 (lit "{\"error\":\"malformed request line\"}")

unfoldable pub on_lines : Text → Text → List Text → Reply
unfolding on_words
on_lines api_key raw [] = say 400 (lit "{\"error\":\"empty request\"}")
on_lines api_key raw (line ∷ ls) =
    if is_empty line
    then say 400 (lit "{\"error\":\"empty request\"}")
    else on_words api_key raw (split_whitespace line)

-- The part of `handle` behind its reading loop, for the text `raw` of what was read.
unfoldable pub answer : Text → Text → Reply
unfolding on_lines
answer api_key raw = on_lines api_key raw (lines raw)

unfoldable pub status_name : ℕ → Text
status_name code =
    if nat_beq code 200
    then lit "OK"
    else if nat_beq code 400
    then lit "Bad Request"
    else if nat_beq code 403
    then lit "Forbidden"
    else if nat_beq code 404
    then lit "Not Found"
    else if nat_beq code 405
    then lit "Method Not Allowed"
    else if nat_beq code 413
    then lit "Payload Too Large"
    else lit "Error"

-- `respond`: the text that is written for a printed body.
unfoldable pub respond : ℕ → Text → Text
unfolding status_name
respond code body =
    lit "HTTP/1.1 "
    ++ (to_string code
        ++ (lit " "
            ++ (status_name code
                ++ (lit "\r\nContent-Type: application/json\r\nContent-Length: "
                    ++ (to_string (length (into_bytes body))
                        ++ (lit "\r\nConnection: close\r\nAccess-Control-Allow-Origin: *\r\n\r\n"
                            ++ body))))))
