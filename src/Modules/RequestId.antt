-- ===== src/Modules/RequestId.antt =====
-- src/modules/request_id.rs: the id that follows a request.
pub mod Tracing
use modular_rust_reverse_pro.Base.{
  ℕ, zero, suc, ◌+◌, ◌-◌, ◌/◌, ◌%◌, ◌^◌, Bool, true, false, Option, none, some, List, [], ◌∷◌, ◌++◌,
  Text, lit, if◌then◌else◌, ltb, length, unwrap_or,
}
use modular_rust_reverse_pro.Metrics.{fetch_add}
use modular_rust_reverse_pro.Context.{Context, get, set}
use modular_rust_reverse_pro.Http.Request.{HttpRequest, get_header, set_request_header}
use modular_rust_reverse_pro.Http.Response.{HttpResponse}

abbrev pub hdr_request_id : Text
hdr_request_id = lit "X-Request-Id"

abbrev hex_digit : ℕ → ℕ
hex_digit d = if ltb d 10 then b'0' + d else b'a' + (d - 10)

unfoldable pub show_hex_onto : ℕ → ℕ → Text → Text
show_hex_onto zero n s = s
show_hex_onto (suc f) n s =
    let more = show_hex_onto f (n / 16) (hex_digit (n % 16) ∷ s) in
    if ltb n 16 then hex_digit n ∷ s else more

-- `{:x}`; a number of 64 bits has at most 16 digits.
unfoldable pub show_hex : ℕ → Text
unfolding show_hex_onto
show_hex n = show_hex_onto 16 n []

zeros : ℕ → Text → Text
zeros zero s = s
zeros (suc k) s = b'0' ∷ zeros k s

-- `{:04x}`
unfoldable pub show_hex4 : ℕ → Text
unfolding show_hex zeros
show_hex4 n = zeros (4 - length (show_hex n)) (show_hex n)

-- The id of the time `micros` and the counter: `format!("{ts:x}-{seq:04x}")`
unfoldable pub generate_id : ℕ → ℕ → Text
generate_id micros seq = show_hex (micros % 2 ^ 64) ++ (lit "-" ++ show_hex4 seq)

-- The new counter, the request and the context.
unfoldable pub handle : ℕ → ℕ → HttpRequest → Context → ℕ × HttpRequest × Context
unfolding generate_id
handle micros counter r c =
    let given = get_header r hdr_request_id in
    let id = unwrap_or given (generate_id micros counter) in
    (
      elim given [ none ↦ fetch_add counter 1 | some _ ↦ counter ],
      set_request_header hdr_request_id id r,
      set (lit "_request_id") id c,
    )

unfoldable pub on_response : HttpResponse → Context → HttpResponse
on_response resp c = elim (get (lit "_request_id") c) [
  | none ↦ resp
  | some id ↦ record resp { headers = resp.headers ++ (hdr_request_id, id) ∷ [] }
]
