-- ===== src/Script/Stdlib/Administering.antt =====
-- `admin_handle` of src/script/stdlib.rs, the admin interface that a script starts: what it answers to
-- the first read of a connection, and what it does.
use modular_rust_reverse_pro.Base.{
  ℕ, ◌-◌, ◌/◌, ◌%◌, ◌≡◌, ◌≢◌, Bool, true, not, ◌||◌, Option, none, some, List, [], ◌∷◌, ◌++◌, Text,
  lit, ◌==◌, text_eq, if◌then◌else◌, nat_beq, is_empty, length, unwrap_or, Bool-cases, inl, inr,
}
use modular_rust_reverse_pro.Strings.Numbers.{to_string}
use modular_rust_reverse_pro.Strings.Split.{lines, split_whitespace}
use modular_rust_reverse_pro.Strings.Utf8.{into_bytes, from_utf8_lossy}
use modular_rust_reverse_pro.Http.Reader.{Event, arrived, expired, failed, read}
use modular_rust_reverse_pro.Modules.AdminApi.{Action, nothing, stop, reload, extract_header}

pub record AdminInfo : Type 0 where
  pub start : ℕ
  pub listen : Text
  pub backend : Text
  pub max_conns : ℕ
  pub api_key : Text

-- What the handler asks of the rest of the program: the time in nanoseconds, the number of the process,
-- active_connections() and snapshot_json().
pub record Asked : Type 0 where
  pub now : ℕ
  pub pid : ℕ
  pub active : ℕ
  pub snapshot : Text

-- The arguments of `admin_respond`, and what is done behind it.
pub record Answer : Type 0 where
  pub code : ℕ
  pub body : Text
  pub action : Action

unfoldable pub status_body : AdminInfo → Asked → Text
status_body info a =
    let up = (a.now - info.start) / 1_000_000_000 in
    lit "{\"status\":\"running\",\"uptime_seconds\":"
    ++ (to_string up
        ++ (lit ",\"uptime\":\""
            ++ (to_string (up / 86400)
                ++ (lit "d "
                    ++ (to_string (up % 86400 / 3600)
                        ++ (lit "h "
                            ++ (to_string (up % 3600 / 60)
                                ++ (lit "m "
                                    ++ (to_string (up % 60)
                                        ++ (lit "s\",\"listen\":\""
                                            ++ (info.listen
                                                ++ (lit "\",\"backend\":\""
                                                    ++ (info.backend
                                                        ++ (lit "\",\"pid\":"
                                                            ++ (to_string a.pid
                                                            ++ (lit ",\"active_connections\":"
                                                            ++ (to_string a.active
                                                            ++ (lit ",\"max_connections\":"
                                                            ++ (to_string info.max_conns
                                                            ++ lit "}")))))))))))))))))))

-- The `match` on the path.
unfoldable pub on_path : AdminInfo → Asked → Text → Answer
unfolding status_body
on_path info a path =
    if path == lit "/ping"
    then record { code = 200; body = lit "{\"ping\":\"pong\"}"; action = nothing }
    else if path == lit "/status"
    then record { code = 200; body = status_body info a; action = nothing }
    else if path == lit "/metrics"
    then record { code = 200; body = a.snapshot; action = nothing }
    else if path == lit "/stop"
    then record { code = 200; body = lit "{\"action\":\"stopping\"}"; action = stop }
    else if path == lit "/reload"
    then record { code = 200; body = lit "{\"action\":\"reloading\"}"; action = reload }
    else record { code = 404; body = lit "{\"error\":\"not found\"}"; action = nothing }

-- No key is asked for, or the request brings it.
unfoldable pub is_granted : AdminInfo → Text → Text → Bool
unfolding extract_header
is_granted info raw path =
    is_empty info.api_key
    || path == lit "/ping"
    || unwrap_or (extract_header raw (lit "X-API-Key")) [] == info.api_key

unfoldable pub on_parts : AdminInfo → Asked → Text → List Text → Option Answer
unfolding is_granted on_path
on_parts info a raw (method ∷ path ∷ more) =
    if not (is_granted info raw path)
    then some (record { code = 403; body = lit "{\"error\":\"unauthorized\"}"; action = nothing })
    else some (on_path info a path)
on_parts info a raw _ = none

unfoldable pub on_lines : AdminInfo → Asked → Text → List Text → Option Answer
unfolding on_parts
on_lines info a raw [] = none
on_lines info a raw (line ∷ ls) =
    if is_empty line then none else on_parts info a raw (split_whitespace line)

-- The `match` on what the one read returns.
unfoldable pub on_event : AdminInfo → Asked → Event → Option Answer
unfolding on_lines
on_event info a (arrived []) = none
on_event info a (arrived (b ∷ bs)) =
    let raw = from_utf8_lossy (b ∷ bs) in on_lines info a raw (lines raw)
on_event info a expired = none
on_event info a (failed m) = none

unfoldable pub admin_handle : AdminInfo → Asked → List Event → Option Answer
unfolding on_event read
admin_handle info a es = on_event info a (read 4096 es).0

unfoldable pub status_text : ℕ → Text
status_text code =
    if nat_beq code 200
    then lit "OK"
    else if nat_beq code 403
    then lit "Forbidden"
    else if nat_beq code 404
    then lit "Not Found"
    else lit "Error"

unfoldable pub admin_respond : ℕ → Text → Text
unfolding status_text
admin_respond code body =
    lit "HTTP/1.1 "
    ++ (to_string code
        ++ (lit " "
            ++ (status_text code
                ++ (lit "\r\nContent-Type: application/json\r\nContent-Length: "
                    ++ (to_string (length (into_bytes body))
                        ++ (lit "\r\nConnection: close\r\nAccess-Control-Allow-Origin: *\r\n\r\n"
                            ++ body))))))

-- Who stops the proxy or restarts it has named the key, if there is one.
on_parts-granted :
    (info : AdminInfo) (a : Asked) (raw method path : Text) (more : List Text) (r : Answer)
    → on_parts info a raw (method ∷ path ∷ more) ≡ some r
    → r.action ≢ nothing
    → is_granted info raw path ≡ true
unfolding on_parts
on_parts-granted info a raw method path more r e acts =
    elim (Bool-cases (is_granted info raw path)) [
      | inl granted ↦ granted
      | inr refused ↦ absurd (acts (cc (rw refused at e)))
    ]
