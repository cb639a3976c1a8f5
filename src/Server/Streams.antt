-- ===== src/Server/Streams.antt =====
-- `handle_stream` of src/h2_handler.rs and `handle_request` of src/h3_handler.rs: one request of an HTTP/2 or HTTP/3 connection.
-- What the crates h2, h3 and http bring is an argument: the parts of the request, the chunks of its body, whether a response with
-- these headers can be built, whether it can be sent, and whether a module panics.
pub mod Bodies
pub mod Counting
use modular_rust_reverse_pro.Base.{
  ℕ, ◌+◌, Bool, true, false, not, ◌&&◌, Option, none, some, List, [], ◌∷◌, ◌++◌, Text, lit,
  if◌then◌else◌, ltb, length, is_empty, unwrap_or,
}
use modular_rust_reverse_pro.Strings.Utf8.{Bytes, into_bytes}
use modular_rust_reverse_pro.Context.{Context, set}
use modular_rust_reverse_pro.Context
use modular_rust_reverse_pro.Metrics.{
  Metrics, inc_requests, inc_requests_ok, inc_requests_err, add_bytes_in, add_bytes_out,
}
use modular_rust_reverse_pro.Http.Headers.{Headers}
use modular_rust_reverse_pro.Http.Request.{HttpRequest}
use modular_rust_reverse_pro.Http.Response.{HttpResponse, error}
use modular_rust_reverse_pro.Http.Reader.{max_body_size}
use modular_rust_reverse_pro.Modules.Pipeline.{Pipeline, Turn, handle}
use modular_rust_reverse_pro.Server.Http1.{count_status}

pub data Protocol : Type 0 where
  h2 h3 : Protocol

-- A header value is `none` if it is no text; a chunk is `none` if it could not be received.
pub record StreamRequest : Type 0 where
  pub method : Text
  pub path_and_query : Option Text
  pub headers : List (Text × Option Text)
  pub chunks : List (Option Bytes)

-- What becomes of a stream.
pub data Outcome : Type 0 where
  broken_off : Outcome
  too_large : Outcome
  panicked : Outcome
  unsent : Outcome
  cut_short : Outcome
  sent : (status : ℕ) → Headers → Bytes → Outcome

pub record Finished (W : Type 0) : Type 0 where
  pub metrics : Metrics
  pub world : W
  pub outcome : Outcome

pub data Body : Type 0 where
  interrupted : Body
  oversized : Body
  whole : Bytes → Body

-- The loop over the chunks.
unfoldable pub collect_body : Bytes → List (Option Bytes) → Body
collect_body body [] = whole body
collect_body body (none ∷ chunks) = interrupted
collect_body body (some bytes ∷ chunks) =
    let rest = collect_body (body ++ bytes) chunks in
    if ltb max_body_size (length (body ++ bytes)) then oversized else rest

unfoldable pub text_headers : List (Text × Option Text) → Headers
text_headers [] = []
text_headers ((name, none) ∷ hs) = text_headers hs
text_headers ((name, some v) ∷ hs) = (name, v) ∷ text_headers hs

unfoldable pub is_h2 : Protocol → Bool
is_h2 h2 = true
is_h2 h3 = false

unfoldable pub version_of : Protocol → Text
version_of h2 = lit "HTTP/2"
version_of h3 = lit "HTTP/3"

protocol_name : Protocol → Text
protocol_name h2 = lit "h2"
protocol_name h3 = lit "h3"

unfoldable pub request_of : Protocol → StreamRequest → Bytes → HttpRequest
unfolding text_headers version_of
request_of p q body = record {
  method = q.method;
  path = unwrap_or q.path_and_query (lit "/");
  version = version_of p;
  headers = text_headers q.headers;
  body = body;
}

unfoldable pub new_context : ℕ → Text → Protocol → Context
unfolding protocol_name
new_context now peer_ip p =
    set (lit "_protocol") (protocol_name p) (set (lit "_client_ip") peer_ip (Context.new now))

-- HTTP/2 names the other service where there is one.
unfoldable pub response_headers : Protocol → Option Text → Headers → Headers
response_headers h3 alt_svc headers = headers
response_headers h2 none headers = headers
response_headers h2 (some alt) headers = headers ++ (lit "Alt-Svc", alt) ∷ []

-- The end of a stream: `builds` is whether `builder.body` gives a response, on which the source calls `unwrap`; `starts`
-- is whether the response can be sent, and `ends` whether what follows it can. HTTP/2 sends nothing behind a
-- response without a body.
unfoldable pub send :
    {W : Type 0}
    → Protocol
    → Option Text
    → (ℕ → Headers → Bool)
    → Bool
    → Bool
    → HttpResponse
    → Metrics
    → W
    → Finished W
unfolding response_headers is_h2
send p alt_svc builds starts ends resp m w =
    let headers = response_headers p alt_svc resp.headers in
    let counted = if is_empty resp.body then m else add_bytes_out (length resp.body) m in
    let whole = sent resp.status_code headers resp.body in
    if not (builds resp.status_code headers)
    then record { metrics = m; world = w; outcome = panicked }
    else if not starts
    then record { metrics = m; world = w; outcome = unsent }
    else if is_h2 p && is_empty resp.body
    then record { metrics = counted; world = w; outcome = whole }
    else record { metrics = counted; world = w; outcome = if ends then whole else cut_short }

-- `panics` tells whether a module panics on a turn, and the state that it leaves then.
module _ {W R : Type 0} (p : Protocol) (now : ℕ) (alt_svc : Option Text)
    (builds : ℕ → Headers → Bool) (starts ends : Bool) (pipeline : Pipeline (Metrics × W) R)
    (panics : Turn (Metrics × W) → Option (Metrics × W)) (peer_ip : Text) where
  unfoldable pub send_counted : HttpResponse → Metrics × W → Finished W
  unfolding send count_status
  send_counted resp (m, w) =
      send p alt_svc builds starts ends resp (count_status resp.status_code m) w

  unfoldable pub answer_stream : HttpRequest → Metrics → W → Finished W
  unfolding new_context send_counted
  answer_stream q m w =
      let turn : Turn (Metrics × W) = record {
        request = q;
        context = new_context now peer_ip p;
        world = (m, w);
      } in
      elim (panics turn) [
        | none ↦ let a = (handle pipeline turn).1 in send_counted a.response a.world
        | some left ↦ send_counted (error 500 (lit "Internal error")) left
      ]

  unfoldable pub on_body : StreamRequest → Body → Metrics → W → Finished W
  unfolding answer_stream request_of
  on_body q interrupted m w = record { metrics = m; world = w; outcome = broken_off }
  on_body q oversized m w = record { metrics = m; world = w; outcome = too_large }
  on_body q (whole body) m w =
      answer_stream (request_of p q body) (add_bytes_in (length body) (inc_requests m)) w

  unfoldable pub handle_stream : StreamRequest → Metrics → W → Finished W
  unfolding on_body collect_body
  handle_stream q m w = on_body q (collect_body [] q.chunks) m w
