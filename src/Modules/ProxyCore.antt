-- ===== src/Modules/ProxyCore.antt =====
-- src/modules/proxy_core.rs: one exchange with the backend. What the operating system and the backend bring is
-- an argument: the parsed address, the checks of pooled streams, the attempt to connect, whether the request could
-- be written, and the events of the stream that answers to these bytes.
use modular_rust_reverse_pro.Base.{
  ℕ, Bool, false, not, Option, none, some, List, [], Text, lit, ◌==◌, text_eq, if◌then◌else◌,
  unwrap_or, Eq,
}
use modular_rust_reverse_pro.Strings.Chars.{eq_ignore_ascii_case}
use modular_rust_reverse_pro.Strings.Utf8.{Bytes}
use modular_rust_reverse_pro.Context.{Context}
use modular_rust_reverse_pro.Context
use modular_rust_reverse_pro.Http.Request.{HttpRequest}
use modular_rust_reverse_pro.Http.Request
use modular_rust_reverse_pro.Http.Response.{HttpResponse, error, get_header}
use modular_rust_reverse_pro.Http.Response
use modular_rust_reverse_pro.Http.Reader.{
  Event, ReadResult, done, timed_out, failed_read, panicked, read_http_message,
}
use modular_rust_reverse_pro.Pool.{ConnPool, Probe}
use modular_rust_reverse_pro.Pool

-- HTTP/1.0 closes the connection unless told otherwise, and later versions keep it.
unfoldable pub keep_alive : HttpResponse → Bool
keep_alive p =
    let conn_hdr = unwrap_or (get_header p (lit "Connection")) [] in
    if p.version == lit "HTTP/1.0"
    then eq_ignore_ascii_case conn_hdr (lit "keep-alive")
    else not (eq_ignore_ascii_case conn_hdr (lit "close"))

-- The response for what was read, and whether the stream goes back to the pool. A panic of the reader leaves the pipeline;
-- what stands for it here is the response that the servers of HTTP/2 and HTTP/3 give for it.
unfoldable pub answer_of : ReadResult → HttpResponse × Bool
unfolding keep_alive
answer_of (done d) = elim (Response.parse d) [
  | none ↦ (error 502 (lit "Parse failed"), false)
  | some parsed ↦ (parsed, keep_alive parsed)
]
answer_of panicked = (error 500 (lit "Internal error"), false)
answer_of timed_out = (error 504 (lit "Backend timeout"), false)
answer_of (failed_read e) = (error 502 (lit "Backend error"), false)

pub record Network (A S : Type 0) : Type 0 where
  pub parse_addr : Text → Option A
  pub probe : S → Probe
  pub connect : A → Option S
  pub write : S → Bytes → Bool
  pub events : S → Bytes → List Event

module _ {A S : Type 0} ⦃e : Eq A⦄ (net : Network A S) where
  -- The bytes of the request are written and the answer is read, over the stream `s`, taken from the pool that is left.
  unfoldable pub exchange : ℕ → ℕ → HttpRequest → A → ConnPool A S → S → ConnPool A S × HttpResponse
  unfolding answer_of
  exchange now buf r addr pool s =
      let out = Request.to_bytes r in
      let (resp, keep) = answer_of (read_http_message (net.events s out) buf) in
      if net.write s out
      then (if keep then Pool.put now addr s pool else pool, resp)
      else (pool, error 502 (lit "Backend write failed"))

  -- `handle`, at time `now`: the pool and the response.
  unfoldable pub handle :
      ℕ → ℕ → HttpRequest → Context → ConnPool A S → ConnPool A S × Option HttpResponse
  unfolding exchange
  handle now buf r c pool = elim (Context.get (lit "_backend_addr") c) [
    | none ↦ (pool, none)
    | some text ↦ elim (net.parse_addr text) [
      | none ↦ (pool, some (error 502 (lit "Invalid backend address")))
      | some addr ↦
          let (pool', stream, hit) = Pool.get net.probe now (net.connect addr) addr pool in
          elim stream [
            | none ↦ (pool', some (error 502 (lit "Backend unavailable")))
            | some s ↦ let (pool'', resp) = exchange now buf r addr pool' s in (pool'', some resp)
          ]
    ]
  ]
