-- ===== src/Server/Streams/Counting.antt =====
-- What the streams of HTTP/2 and HTTP/3 count.
use modular_rust_reverse_pro.Base.{
  true, false, not, lit, is_empty, unwrap_or, if◌then◌else◌, ◌&&◌, Option-cases, ℕ, ◌+◌, ◌%◌, ◌^◌,
  ◌≡◌, refl, Bool, Option, none, some, [], Text, All, length, arith, inl, inr, ◌⊎◌,
}
use modular_rust_reverse_pro.Strings.Utf8.{Bytes}
use modular_rust_reverse_pro.Metrics.{Metrics, inc_requests, add_bytes_in, add_bytes_out}
use modular_rust_reverse_pro.Http.Headers.{Headers}
use modular_rust_reverse_pro.Http.Response.{HttpResponse, error}
use modular_rust_reverse_pro.Modules.Pipeline.{Pipeline, Turn, handle}
use modular_rust_reverse_pro.Server.Http1.{count_status}
use modular_rust_reverse_pro.Server.Http1.Counting.{
  KeepsCounts, SameCounts, answered, handle-SameCounts, count_status-answered,
}
use modular_rust_reverse_pro.Server.Streams.{
  Protocol, StreamRequest, Outcome, broken_off, too_large, panicked, unsent, cut_short, sent,
  Finished, Body, interrupted, oversized, whole, collect_body, text_headers, version_of, is_h2,
  response_headers, request_of, new_context, send, send_counted, answer_stream, on_body,
  handle_stream,
}
use modular_rust_reverse_pro.Server.Streams.Bodies.{IsBody, collect_body-IsBody}

-- What becomes of a response: it is sent with its status, its headers and its body, or it cannot be built or sent.
pub data Delivers (p : Protocol) (alt_svc : Option Text) (builds : ℕ → Headers → Bool)
    (starts ends : Bool) (resp : HttpResponse) : Outcome → Type 0 where
  delivered :
      builds resp.status_code (response_headers p alt_svc resp.headers) ≡ true
      → starts ≡ true
      → Delivers p alt_svc builds starts ends resp
          (sent resp.status_code (response_headers p alt_svc resp.headers) resp.body)
  unbuilt :
      builds resp.status_code (response_headers p alt_svc resp.headers) ≡ false
      → Delivers p alt_svc builds starts ends resp panicked
  refused : starts ≡ false → Delivers p alt_svc builds starts ends resp unsent
  cut_off : ends ≡ false → Delivers p alt_svc builds starts ends resp cut_short

send-answered :
    {W : Type 0} (p : Protocol) (alt_svc : Option Text) (builds : ℕ → Headers → Bool)
    (starts ends : Bool) (resp : HttpResponse) (m : Metrics) (w : W)
    → answered (send p alt_svc builds starts ends resp m w).metrics ≡ answered m
unfolding send add_bytes_out
send-answered p alt_svc builds starts ends resp m w = ground arith

send-world :
    {W : Type 0} (p : Protocol) (alt_svc : Option Text) (builds : ℕ → Headers → Bool)
    (starts ends : Bool) (resp : HttpResponse) (m : Metrics) (w : W)
    → (send p alt_svc builds starts ends resp m w).world ≡ w
unfolding send
send-world p alt_svc builds starts ends resp m w = ground arith

if-Delivers :
    {W : Type 0} (P : Outcome → Type 0) (c : Bool) (x y : Finished W)
    → (c ≡ true → P x.outcome)
    → (c ≡ false → P y.outcome)
    → P (if c then x else y).outcome
if-Delivers P true x y f g = f refl
if-Delivers P false x y f g = g refl

send-Delivers :
    {W : Type 0} (p : Protocol) (alt_svc : Option Text) (builds : ℕ → Headers → Bool)
    (starts ends : Bool) (resp : HttpResponse) (m : Metrics) (w : W)
    → Delivers p alt_svc builds starts ends resp
        (send p alt_svc builds starts ends resp m w).outcome
unfolding send
send-Delivers {W} p alt_svc builds starts ends resp m w =
    let P = Delivers p alt_svc builds starts ends resp in
    let headers = response_headers p alt_svc resp.headers in
    let counted = if is_empty resp.body then m else add_bytes_out (length resp.body) m in
    let whole = sent resp.status_code headers resp.body in
    let full : Finished W = record { metrics = counted; world = w; outcome = whole } in
    let cut : Finished W = record {
      metrics = counted;
      world = w;
      outcome = if ends then whole else cut_short;
    } in
    let none_sent : Finished W = record { metrics = m; world = w; outcome = unsent } in
    let broken : Finished W = record { metrics = m; world = w; outcome = panicked } in
    let bodied = if is_h2 p && is_empty resp.body then full else cut in
    let begun = if not starts then none_sent else bodied in
    if-Delivers P (not (builds resp.status_code headers)) broken begun
      (λ bad. unbuilt (ground arith))
      (λ good.
        if-Delivers P (not starts) none_sent bodied (λ no_start. refused (ground arith))
          (λ start.
            if-Delivers P (is_h2 p && is_empty resp.body) full cut
              (λ e. delivered (ground arith) (ground arith))
              (λ e. whole_or_cut (ground arith) (ground arith) ends refl)))
  where
    whole_or_cut :
        builds resp.status_code (response_headers p alt_svc resp.headers) ≡ true
        → starts ≡ true
        → (c : Bool) → ends ≡ c
        → Delivers p alt_svc builds starts ends resp (
            if c
            then sent resp.status_code (response_headers p alt_svc resp.headers) resp.body
            else cut_short)
    whole_or_cut good ok true e = delivered good ok
    whole_or_cut good ok false e = cut_off e

module _ {W R : Type 0} (p : Protocol) (now : ℕ) (alt_svc : Option Text)
    (builds : ℕ → Headers → Bool) (starts ends : Bool) (pipeline : Pipeline (Metrics × W) R)
    (panics : Turn (Metrics × W) → Option (Metrics × W)) (peer_ip : Text) where
  -- The turn of the pipeline for a body.
  abbrev pub turn_of : StreamRequest → Bytes → Metrics → W → Turn (Metrics × W)
  turn_of q body m w = record {
    request = record {
      method = q.method;
      path = unwrap_or q.path_and_query (lit "/");
      version = version_of p;
      headers = text_headers q.headers;
      body = body;
    };
    context = new_context now peer_ip p;
    world = (add_bytes_in (length body) (inc_requests m), w);
  }

  -- The stream ends with this response, and with the state that the modules leave, and is counted once.
  abbrev pub EndsWith : HttpResponse → W → Metrics → Finished W → Type 0
  EndsWith resp left m s =
      Delivers p alt_svc builds starts ends resp s.outcome
      × (s.world ≡ left)
      × (answered s.metrics % 2 ^ 64 ≡ (answered m + 1) % 2 ^ 64)

  -- A module panics, and the client gets status 500; or the pipeline answers.
  abbrev pub IsServed : StreamRequest → Bytes → Metrics → W → Finished W → Type 0
  IsServed q body m w s =
      ((left : Metrics × W) × (panics (turn_of q body m w) ≡ some left)
        × EndsWith (error 500 (lit "Internal error")) left.1 m s)
      ⊎ ((panics (turn_of q body m w) ≡ none)
          × EndsWith (handle pipeline (turn_of q body m w)).1.response
              (handle pipeline (turn_of q body m w)).1.world.1 m s)

  module _ (all : All (λ e. KeepsCounts e.1) pipeline.mods)
      (keeps : (t : Turn (Metrics × W)) (left : Metrics × W)
        → panics t ≡ some left
        → SameCounts t.world.0 left.0) where
    send_counted-EndsWith :
        (resp : HttpResponse) (left : Metrics × W) (m : Metrics)
        → SameCounts m left.0
        → EndsWith resp left.1 m
            (send_counted p now alt_svc builds starts ends pipeline panics peer_ip resp left)
    unfolding send_counted
    send_counted-EndsWith resp left m same = (
      send-Delivers p alt_svc builds starts ends resp (count_status resp.status_code left.0) left.1,
      send-world p alt_svc builds starts ends resp (count_status resp.status_code left.0) left.1,
      omega (
        arith,
        send-answered p alt_svc builds starts ends resp (count_status resp.status_code left.0)
            left.1,
        same,
        count_status-answered resp.status_code left.0,
      ),
    )

    on_body-IsServed :
        (q : StreamRequest) (body : Bytes) (m : Metrics) (w : W)
        → IsServed q body m w
            (on_body p now alt_svc builds starts ends pipeline panics peer_ip q (whole body) m w)
    unfolding on_body answer_stream request_of inc_requests add_bytes_in
    on_body-IsServed q body m w =
        let turn = turn_of q body m w in
        elim (Option-cases (panics turn)) [
          | inl calm ↦
              let a = (handle pipeline turn).1 in
              inr (
                calm,
                rw (calm, answer_stream)
                    (send_counted-EndsWith a.response a.world m
                      (handle-SameCounts pipeline turn all)),
              )
          | inr (left, e) ↦ inl (
            left,
            e,
            rw (e, answer_stream)
                (send_counted-EndsWith (error 500 (lit "Internal error")) left m
                  (keeps turn left e)),
          )
        ]

    -- A stream with a chunk that was not received is ended, and so is one whose chunks come to more than 16 MB: no counter is
    -- changed, the refusal of a large body included. Every other is given to the modules with all of its body, and what becomes
    -- of it is what becomes of their response, or of a response with status 500 if one of them panics. It is counted once as
    -- good or bad (in 64 bits), whether its response can then be sent or not, if the modules leave these counters alone.
    pub handle_stream-cases :
        (q : StreamRequest) (m : Metrics) (w : W)
        → let s = handle_stream p now alt_svc builds starts ends pipeline panics peer_ip q m w in
          ((((IsBody [] q.chunks interrupted × (s.outcome ≡ broken_off))
                ⊎ (IsBody [] q.chunks oversized × (s.outcome ≡ too_large)))
              × (s.metrics ≡ m)
              × (s.world ≡ w))
            ⊎ ((body : Bytes) × IsBody [] q.chunks (whole body) × IsServed q body m w s))
    unfolding handle_stream on_body
    handle_stream-cases q m w =
        go (collect_body [] q.chunks) (collect_body-IsBody [] q.chunks (omega arith))
      where
        go :
            (b : Body)
            → IsBody [] q.chunks b
            → let s = on_body p now alt_svc builds starts ends pipeline panics peer_ip q b m w in
              ((((IsBody [] q.chunks interrupted × (s.outcome ≡ broken_off))
                    ⊎ (IsBody [] q.chunks oversized × (s.outcome ≡ too_large)))
                  × (s.metrics ≡ m)
                  × (s.world ≡ w))
                ⊎ ((body : Bytes) × IsBody [] q.chunks (whole body) × IsServed q body m w s))
        go interrupted h = inl (inl (h, refl), refl, refl)
        go oversized h = inl (inr (h, refl), refl, refl)
        go (whole body) h = inr (body, h, on_body-IsServed q body m w)
