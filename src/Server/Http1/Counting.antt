-- ===== src/Server/Http1/Counting.antt =====
-- What `handle_h1` counts and what it sends.
use modular_rust_reverse_pro.Base.{
  ℕ, ◌+◌, ◌%◌, ◌^◌, ◌≤◌, ◌≡◌, refl, Option, none, some, List, [], ◌∷◌, Text, lit, All, length, ltb,
  arith, inl, inr, Bool-cases, Option-cases, ℤ,
}
use modular_rust_reverse_pro.Metrics.{
  Metrics, fetch_add, inc_connections, inc_requests, inc_requests_ok, inc_requests_err,
  add_bytes_in, add_bytes_out, record_latency,
}
use modular_rust_reverse_pro.Context.{elapsed_ms}
use modular_rust_reverse_pro.Http.Request.{HttpRequest}
use modular_rust_reverse_pro.Http.Request
use modular_rust_reverse_pro.Http.Response.{HttpResponse, error}
use modular_rust_reverse_pro.Http.Reader.{
  ReadResult, done, timed_out, failed_read, panicked, read_http_message,
}
use modular_rust_reverse_pro.Modules.Pipeline.{Pipeline, Turn, Answer, Module, handle}
use modular_rust_reverse_pro.Modules.Pipeline.Onion.{onion, handle-eq-onion}
use modular_rust_reverse_pro.Server.Http1.{
  ClientStream, Served, read_error, needs_length, count_status, refuse, answer, on_request, on_read,
  handle_h1, new_context,
}

-- The responses that were counted, good or bad.
abbrev pub answered : Metrics → ℕ
answered m = m.requests_ok + m.requests_err

-- The modules leave these counters to the server.
abbrev pub SameCounts : Metrics → Metrics → Type 0
SameCounts m m' = (m'.requests_ok ≡ m.requests_ok) × (m'.requests_err ≡ m.requests_err)

pub record KeepsCounts {W : Type 0} (m : Module (Metrics × W)) : Type 0 where
  pub on_handle : (t : Turn (Metrics × W)) → SameCounts t.world.0 (m.handle t).0.world.0
  pub on_answer :
      (q : HttpRequest) (a : Answer (Metrics × W))
      → SameCounts a.world.0 (m.on_response q a).world.0

pub count_status-answered :
    (code : ℕ) (m : Metrics) → answered (count_status code m) % 2 ^ 64 ≡ (answered m + 1) % 2 ^ 64
unfolding count_status inc_requests_ok inc_requests_err fetch_add
count_status-answered code m = elim (Bool-cases (ltb code 400)) [
  | inl ok ↦ rw (ok, count_status) (omega arith)
  | inr err ↦ rw (err, count_status) (omega arith)
]

module _ {W : Type 0} where
  onion-SameCounts :
      (ms : List (ℤ × Module (Metrics × W))) (t : Turn (Metrics × W))
      → All (λ e. KeepsCounts e.1) ms
      → SameCounts t.world.0 (onion ms t).1.world.0
  unfolding onion
  onion-SameCounts [] t all = (refl, refl)
  onion-SameCounts ((p, m) ∷ ms) t all =
      let t' = (m.handle t).0 in
      let first = all.0.on_handle t in
      let inner = onion ms t' in
      let back = all.0.on_answer inner.0 inner.1 in
      elim (Option-cases (m.handle t).1) [
        | inl quiet ↦ rw (quiet, onion) (omega (arith, first, onion-SameCounts ms t' all.1, back))
        | inr (resp, e) ↦
            let own =
              all.0.on_answer t'.request
                (record { response = resp; context = t'.context; world = t'.world }) in
            rw (e, onion) (omega (arith, first, own))
      ]

  pub handle-SameCounts :
      {R : Type 0} (p : Pipeline (Metrics × W) R) (t : Turn (Metrics × W))
      → All (λ e. KeepsCounts e.1) p.mods
      → SameCounts t.world.0 (handle p t).1.world.0
  handle-SameCounts p t all = rw (handle-eq-onion p t) (onion-SameCounts p.mods t all)

  -- One response is sent and counted, or none of both.
  abbrev pub Counts : Metrics → Served W → Type 0
  Counts m s =
      (length s.sent ≤ 1) × (answered s.metrics % 2 ^ 64 ≡ (answered m + length s.sent) % 2 ^ 64)

  refuse-Counts : (resp : HttpResponse) (m : Metrics) (w : W) → Counts m (refuse resp m w)
  unfolding refuse inc_requests_err fetch_add
  refuse-Counts resp m w = omega arith

module _ {W R : Type 0} (now later : ℕ) (seen : List ℕ) (alt_svc : Option Text)
    (p : Pipeline (Metrics × W) R) (all : All (λ e. KeepsCounts e.1) p.mods) where
  answer-Counts :
      (c : ClientStream) (q : HttpRequest) (m : Metrics) (w : W)
      → Counts m (answer now later seen alt_svc p c q m w)
  unfolding answer add_bytes_out record_latency
  answer-Counts c q m w =
      let turn : Turn (Metrics × W) = record {
        request = q;
        context = new_context now c;
        world = (m, w);
      } in
      let a = (handle p turn).1 in
      omega (
        arith,
        handle-SameCounts p turn all,
        count_status-answered a.response.status_code
            (record_latency (elapsed_ms later a.context) seen a.world.0),
      )

  on_request-Counts :
      (c : ClientStream) (o : Option HttpRequest) (m : Metrics) (w : W)
      → Counts m (on_request now later seen alt_svc p c o m w)
  unfolding on_request
  on_request-Counts c none m w = refuse-Counts (error 400 (lit "Bad Request")) m w
  on_request-Counts c (some q) m w = elim (Bool-cases (needs_length q)) [
    | inl missing ↦ rw (missing, on_request) (refuse-Counts (error 411 (lit "Length Required")) m w)
    | inr fine ↦ rw (fine, on_request) (answer-Counts c q m w)
  ]

  on_read-Counts :
      (c : ClientStream) (r : ReadResult) (m : Metrics) (w : W)
      → Counts m (on_read now later seen alt_svc p c r m w)
  unfolding on_read inc_requests add_bytes_in
  on_read-Counts c (done raw) m w =
      on_request-Counts c (Request.parse raw) (inc_requests (add_bytes_in (length raw) m)) w
  on_read-Counts c timed_out m w = (omega arith, omega arith)
  on_read-Counts c panicked m w = (omega arith, omega arith)
  on_read-Counts c (failed_read e) m w = refuse-Counts (read_error e) m w

  -- A connection gets one response at most, and each response that is sent is counted once, as good or as bad
  -- (in 64 bits), if the modules of the pipeline leave these two counters alone. Nothing else is counted as either.
  pub handle_h1-Counts :
      (buf_size : ℕ) (c : ClientStream) (m : Metrics) (w : W)
      → Counts m (handle_h1 now later seen alt_svc buf_size p c m w)
  unfolding handle_h1 inc_connections
  handle_h1-Counts buf_size c m w = elim (Option-cases p.raw) [
    | inl plain ↦
        rw (plain, handle_h1)
          (on_read-Counts c (read_http_message c.events buf_size) (inc_connections m) w)
    | inr (h, e) ↦ rw (e, handle_h1) (omega arith, omega arith)
  ]
