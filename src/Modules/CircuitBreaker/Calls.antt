-- ===== src/Modules/CircuitBreaker/Calls.antt =====
-- The two methods of the breaker as they act when no other thread interferes.
use modular_rust_reverse_pro.Base.{
  ℕ, ◌+◌, ◌-◌, ◌*◌, ◌^◌, ◌≤◌, ◌<◌, ◌≡◌, ◌∙◌, Option, none, some, List, [], ◌∷◌, lit, if◌then◌else◌,
  leb, ltb, ltb→lt, false, leb-false, le→leb, arith, length, inl, inr, Bool-cases,
}
use modular_rust_reverse_pro.Metrics.{fetch_add}
use modular_rust_reverse_pro.Http.Response.{HttpResponse, error}
use modular_rust_reverse_pro.Modules.CircuitBreaker.{
  CircuitBreaker, State, closed, open_circuit, half_open, handle, on_response, step, second,
}

-- What a request meets, by the state of the breaker.
abbrev pub admits : ℕ → CircuitBreaker → State → CircuitBreaker × Option HttpResponse
admits now b open_circuit =
    if leb (b.recovery_secs * second) (now - b.opened_at)
    then (record b { state = half_open }, none)
    else (
      record b { cb_rejects = fetch_add b.cb_rejects 1 },
      some (error 503 (lit "Circuit breaker open")),
    )
admits now b s = (b, none)

-- The breaker after it opened at time `now`.
abbrev pub tripped : ℕ → CircuitBreaker → CircuitBreaker
tripped now b = record b {
  failures = fetch_add b.failures 1;
  state = open_circuit;
  opened_at = now;
  cb_trips = fetch_add b.cb_trips 1;
}

-- What a failed response does, by the state of the breaker.
abbrev pub fails : ℕ → CircuitBreaker → State → CircuitBreaker
fails now b half_open = tripped now b
fails now b open_circuit = record b { failures = fetch_add b.failures 1 }
fails now b closed =
    if leb b.threshold (fetch_add b.failures 1)
    then tripped now b
    else record b { failures = fetch_add b.failures 1 }

abbrev pub records : ℕ → ℕ → CircuitBreaker → CircuitBreaker
records now code b =
    if leb 500 code then fails now b b.state else record b { failures = 0; state = closed }

-- A call of `handle` that runs alone lets every request pass but in the open state. There it rejects with
-- status 503 and counts the rejection until `recovery_secs` have passed since the breaker opened; then
-- it goes to half-open and lets the request pass.
pub handle-eq-admits : (now : ℕ) (b : CircuitBreaker) → handle now b ≡ admits now b b.state
unfolding handle step fetch_add
handle-eq-admits now b = ground arith

-- A call of `on_response` that runs alone: a status below 500 closes the breaker and clears its failures. A
-- status of 500 or more adds a failure (in 64 bits). In the half-open state it opens the breaker, in the
-- closed state it does so if the count has reached the threshold; the opening is counted and its time kept.
-- In the open state nothing else changes.
pub on_response-eq-records :
    (now code : ℕ) (b : CircuitBreaker) → on_response now code b ≡ records now code b
unfolding on_response step fetch_add
on_response-eq-records now code b = ground arith

-- The responses of one backend, each at its time.
abbrev pub on_responses : List (ℕ × ℕ) → CircuitBreaker → CircuitBreaker
on_responses [] b = b
on_responses ((now, code) ∷ rs) b = on_responses rs (on_response now code b)

abbrev pub AllFail : List (ℕ × ℕ) → Type 0
AllFail [] = Unit {0}
AllFail ((now, code) ∷ rs) = (500 ≤ code) × AllFail rs

failing-open_circuit :
    (b : CircuitBreaker) (rs : List (ℕ × ℕ))
    → AllFail rs
    → b.state ≡ open_circuit
    → (on_responses rs b).state ≡ open_circuit
failing-open_circuit b [] h e = e
failing-open_circuit b ((now, code) ∷ rs) h e =
    failing-open_circuit (on_response now code b) rs h.1
      (ground (arith, on_response-eq-records now code b))

one_failure :
    (b : CircuitBreaker) (now code : ℕ)
    → 500 ≤ code
    → b.state ≡ closed
    → b.failures + 1 < 2 ^ 64
    → let b' = on_response now code b in
      (b'.state ≡ (if leb b.threshold (b.failures + 1) then open_circuit else closed))
      × (b'.failures ≡ b.failures + 1)
      × (b'.threshold ≡ b.threshold)
unfolding fetch_add
one_failure b now code h e lt = ground (arith, on_response-eq-records now code b)

-- Failed responses in a row, one after another, from a closed breaker whose failures are below the threshold
-- and below 2^64 when all are added: the breaker is open exactly when the failures have reached the
-- threshold, and closed until then.
pub opens_after :
    (rs : List (ℕ × ℕ)) (b : CircuitBreaker)
    → AllFail rs
    → b.state ≡ closed
    → b.failures < b.threshold
    → b.failures + length rs < 2 ^ 64
    → (on_responses rs b).state
      ≡ (if leb b.threshold (b.failures + length rs) then open_circuit else closed)
opens_after [] b h e lt bound = ground arith
opens_after ((now, code) ∷ rs) b h e lt bound =
    let (s, f, t) = one_failure b now code h.0 e (omega arith) in
    elim (Bool-cases (leb b.threshold (b.failures + 1))) [
      | inl reached ↦
          failing-open_circuit (on_response now code b) rs h.1 (ground arith) ∙ ground arith
      | inr below ↦
          opens_after rs (on_response now code b) h.1 (ground arith) (ground arith) (omega arith)
          ∙ ground arith
    ]

ltb-false→le : (x y : ℕ) → ltb x y ≡ false → y ≤ x
ltb-false→le x y h = ground arith

-- An open breaker, at a time not before it opened: a request that comes less than `recovery_secs` after the
-- opening is rejected with status 503 and leaves the breaker open, and one that comes later passes and leaves
-- the breaker half-open.
pub rejects_until_recovery :
    (b : CircuitBreaker) (now : ℕ)
    → b.state ≡ open_circuit
    → b.opened_at ≤ now
    → let waits = ltb now (b.opened_at + b.recovery_secs * second) in
      ((handle now b).1 ≡ (if waits then some (error 503 (lit "Circuit breaker open")) else none))
      × ((handle now b).0.state ≡ (if waits then open_circuit else half_open))
rejects_until_recovery b now e le =
    elim (Bool-cases (ltb now (b.opened_at + b.recovery_secs * second))) [
      | inl early ↦ ground (
        arith,
        handle-eq-admits now b,
        ltb→lt now (b.opened_at + b.recovery_secs * second) early,
        leb-false (b.recovery_secs * second) (now - b.opened_at)
            (omega (arith, ltb→lt now (b.opened_at + b.recovery_secs * second) early)),
      )
      | inr late ↦ ground (
        arith,
        handle-eq-admits now b,
        le→leb (b.recovery_secs * second) (now - b.opened_at)
            (omega (arith, ltb-false→le now (b.opened_at + b.recovery_secs * second) late)),
      )
    ]
