-- ===== src/Server/Http1.antt =====
-- `handle_h1` and `reject_overloaded` of src/server.rs. The modules of the pipeline may change the counters too, so
-- that its state is the counters with the other state `W`. What a write to the client brings is ignored by the source. A panic
-- while the request is read ends the connection, which the worker survives; one of a module is not modelled.
pub mod Counting
use modular_rust_reverse_pro.Base.{
  ℕ, Bool, true, false, not, ◌&&◌, ◌||◌, Option, none, some, List, [], ◌∷◌, Text, lit, ◌==◌,
  text_eq, if◌then◌else◌, ltb, is_none, length, unwrap_or,
}
use modular_rust_reverse_pro.Strings.Utf8.{Bytes}
use modular_rust_reverse_pro.Context.{Context, set, elapsed_ms}
use modular_rust_reverse_pro.Context
use modular_rust_reverse_pro.Metrics.{
  Metrics, inc_connections, inc_requests, inc_requests_ok, inc_requests_err, add_bytes_in,
  add_bytes_out, record_latency,
}
use modular_rust_reverse_pro.Http.Request.{HttpRequest, get_header}
use modular_rust_reverse_pro.Http.Request
use modular_rust_reverse_pro.Http.Response.{HttpResponse, error, set_response_header}
use modular_rust_reverse_pro.Http.Response
use modular_rust_reverse_pro.Http.Reader.{
  Event, ReadResult, done, timed_out, failed_read, panicked, read_http_message,
}
use modular_rust_reverse_pro.Modules.Pipeline.{Pipeline, Turn, handle}

-- A client connection, and what it brings.
pub record ClientStream : Type 0 where
  pub is_plain : Bool
  pub peer_ip : Option Text
  pub tls_version : Option Text
  pub events : List Event

-- What became of a connection: the bytes of each message that was sent to the client, in order, and whether the
-- stream was given to the raw handler.
pub record Served (W : Type 0) : Type 0 where
  pub metrics : Metrics
  pub world : W
  pub sent : List Bytes
  pub is_raw : Bool

-- The status for a message that could not be read.
unfoldable pub read_error : Text → HttpResponse
read_error e =
    if e == lit "headers too large"
    then error 431 (lit "Request Header Fields Too Large")
    else if e == lit "body too large"
    then error 413 (lit "Payload Too Large")
    else error 400 (lit "Bad Request")

unfoldable pub needs_length : HttpRequest → Bool
needs_length q =
    (q.method == lit "POST" || q.method == lit "PUT" || q.method == lit "PATCH")
    && is_none (get_header q (lit "Content-Length"))
    && is_none (get_header q (lit "Transfer-Encoding"))

-- The context of a new request, at the time `now`.
unfoldable pub new_context : ℕ → ClientStream → Context
new_context now c =
    let ctx =
      set (lit "_protocol") (lit "h1")
        (set (lit "_client_ip") (unwrap_or c.peer_ip (lit "?")) (Context.new now)) in
    elim c.tls_version [ none ↦ ctx | some ver ↦ set (lit "_tls_version") ver ctx ]

unfoldable pub with_alt_svc : Option Text → HttpResponse → HttpResponse
with_alt_svc none resp = resp
with_alt_svc (some alt) resp = set_response_header (lit "Alt-Svc") alt resp

-- The counters for a response with this status.
unfoldable pub count_status : ℕ → Metrics → Metrics
unfolding inc_requests_ok inc_requests_err
count_status code m = if ltb code 400 then inc_requests_ok m else inc_requests_err m

module _ {W : Type 0} where
  -- An error response, counted.
  unfoldable pub refuse : HttpResponse → Metrics → W → Served W
  refuse resp m w = record {
    metrics = inc_requests_err m;
    world = w;
    sent = Response.to_bytes resp ∷ [];
    is_raw = false;
  }

  unfoldable pub reject_overloaded : Metrics → W → Served W
  unfolding refuse
  reject_overloaded m w = refuse (error 503 (lit "Server overloaded")) m w

module _ {W R : Type 0} where
  -- The pipeline answers at the time `later`; `seen` is what other threads store as the maximum latency meanwhile.
  unfoldable pub answer :
      ℕ
      → ℕ
      → List ℕ
      → Option Text
      → Pipeline (Metrics × W) R
      → ClientStream
      → HttpRequest
      → Metrics
      → W
      → Served W
  unfolding new_context with_alt_svc count_status
  answer now later seen alt_svc p c q m w =
      let (q', a) =
        handle p (record { request = q; context = new_context now c; world = (m, w) }) in
      let (m', w') = a.world in
      let resp = with_alt_svc alt_svc a.response in
      let out = Response.to_bytes resp in
      record {
        metrics = add_bytes_out (length out) (
            count_status a.response.status_code
              (record_latency (elapsed_ms later a.context) seen m'));
        world = w';
        sent = out ∷ [];
        is_raw = false;
      }

  unfoldable pub on_request :
      ℕ
      → ℕ
      → List ℕ
      → Option Text
      → Pipeline (Metrics × W) R
      → ClientStream
      → Option HttpRequest
      → Metrics
      → W
      → Served W
  unfolding refuse answer needs_length
  on_request now later seen alt_svc p c none m w = refuse (error 400 (lit "Bad Request")) m w
  on_request now later seen alt_svc p c (some q) m w =
      if needs_length q
      then refuse (error 411 (lit "Length Required")) m w
      else answer now later seen alt_svc p c q m w

  unfoldable pub on_read :
      ℕ
      → ℕ
      → List ℕ
      → Option Text
      → Pipeline (Metrics × W) R
      → ClientStream
      → ReadResult
      → Metrics
      → W
      → Served W
  unfolding on_request read_error
  on_read now later seen alt_svc p c (done raw) m w =
      on_request now later seen alt_svc p c (Request.parse raw)
        (inc_requests (add_bytes_in (length raw) m)) w
  on_read now later seen alt_svc p c timed_out m w = record {
    metrics = m;
    world = w;
    sent = [];
    is_raw = false;
  }
  on_read now later seen alt_svc p c panicked m w = record {
    metrics = m;
    world = w;
    sent = [];
    is_raw = false;
  }
  on_read now later seen alt_svc p c (failed_read e) m w = refuse (read_error e) m w

  unfoldable pub handle_h1 :
      ℕ
      → ℕ
      → List ℕ
      → Option Text
      → ℕ
      → Pipeline (Metrics × W) R
      → ClientStream
      → Metrics
      → W
      → Served W
  unfolding on_read
  handle_h1 now later seen alt_svc buf_size p c m w =
      let m' = inc_connections m in
      elim p.raw [
        | some raw_handler ↦ record { metrics = m'; world = w; sent = []; is_raw = c.is_plain }
        | none ↦ on_read now later seen alt_svc p c (read_http_message c.events buf_size) m' w
      ]
