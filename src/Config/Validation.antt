-- ===== src/Config/Validation.antt =====
-- The configuration that the server runs with.
use modular_rust_reverse_pro.Base.{
  ◌≤◌, ◌<◌, ◌≡◌, ◌≢◌, ◌⊎◌, inl, inr, refl, Bool, true, false, [], ◌∷◌, Text, ◌&&◌, ◌||◌, is_empty,
  if◌then◌else◌, lit, arith, text_eq,
}
use modular_rust_reverse_pro.Config.{Srv, Host, checked, validate, repair, tls_valid, fall_back}

-- TLS is off, or it is on and both files exist.
abbrev pub TlsReady : (Text → Bool) → Text → Text → Type 0
TlsReady exists cert key =
    ((cert ≡ []) × (key ≡ []))
    ⊎ ((cert ≢ []) × (key ≢ []) × (exists cert ≡ true) × (exists key ≡ true))

-- What the rest of the server relies on.
pub record IsRunnable (h : Host) (s : Srv) : Type 0 where
  pub listens : h.parses s.listen_addr ≡ true
  pub forwards : h.parses s.backend_addr ≡ true
  pub buffer : 1024 ≤ s.buffer_size
  pub client_waits : 0 < s.client_timeout
  pub backend_waits : 0 < s.backend_timeout
  pub headers : 0 < s.max_header_size
  pub bodies : 0 < s.max_body_size
  pub connections : 0 < s.max_connections
  pub drains : 0 < s.shutdown_timeout
  pub tls : TlsReady h.exists s.tls_cert s.tls_key

tls_valid-TlsReady :
    (h : Host) (s : Srv) → tls_valid h s ≡ true → TlsReady h.exists s.tls_cert s.tls_key
unfolding tls_valid
tls_valid-TlsReady h s v = go s.tls_cert s.tls_key v
  where
    go :
        (c k : Text)
        → (if is_empty c && is_empty k
            then true
            else if is_empty c || is_empty k
            then false
            else h.exists c && h.exists k)
          ≡ true
        → TlsReady h.exists c k
    go [] [] v = inl (refl, refl)
    go [] (y ∷ k) v = absurd (cc)
    go (x ∷ c) [] v = absurd (cc)
    go (x ∷ c) (y ∷ k) v = inr (λ e. cc, λ e. cc, ground arith, ground arith)

TlsReady-tls_valid :
    (h : Host) (s : Srv) → TlsReady h.exists s.tls_cert s.tls_key → tls_valid h s ≡ true
unfolding tls_valid
TlsReady-tls_valid h s (inl (c, k)) = rw (c, k, tls_valid) refl
TlsReady-tls_valid h s (inr (c, k, x, y)) = go s.tls_cert s.tls_key c k x y
  where
    go :
        (c k : Text)
        → c ≢ []
        → k ≢ []
        → h.exists c ≡ true
        → h.exists k ≡ true
        → (if is_empty c && is_empty k
            then true
            else if is_empty c || is_empty k
            then false
            else h.exists c && h.exists k)
          ≡ true
    go [] k c' k' x y = absurd (c' refl)
    go (a ∷ c) [] c' k' x y = absurd (k' refl)
    go (a ∷ c) (b ∷ k) c' k' x y = rw (x, y) refl

fall_back-tls : (h : Host) (s : Srv) → tls_valid h (fall_back h s) ≡ true
unfolding tls_valid fall_back
fall_back-tls h s = ground arith

repair-tls : (h : Host) (s : Srv) → tls_valid h (repair s) ≡ tls_valid h s
unfolding tls_valid repair
repair-tls h s = refl

checked-tls : (h : Host) (s : Srv) → tls_valid h (checked h s) ≡ true
unfolding checked validate
checked-tls h s = ground (arith, repair-tls h s, fall_back-tls h (repair s))

-- Whatever section was read, the one that the server gets can be run with, if the two fallback addresses parse: its
-- addresses parse, its sizes, limits and timeouts are not zero, and TLS is off or both files exist.
pub checked-IsRunnable :
    (h : Host) (s : Srv)
    → h.parses (lit "127.0.0.1:3000") ≡ true
    → h.parses (lit "127.0.0.1:8080") ≡ true
    → IsRunnable h (checked h s)
unfolding checked validate repair fall_back
checked-IsRunnable h s p q = record {
  listens = ground arith;
  forwards = ground arith;
  buffer = ground arith;
  client_waits = ground arith;
  backend_waits = ground arith;
  headers = ground arith;
  bodies = ground arith;
  connections = ground arith;
  drains = ground arith;
  tls = tls_valid-TlsReady h (checked h s) (checked-tls h s);
}

repair_kept : (h : Host) (s : Srv) → IsRunnable h s → repair s ≡ s
unfolding repair
repair_kept h s r = ground arith

-- A section that is runnable already is returned as it was.
pub checked_kept : (h : Host) (s : Srv) → IsRunnable h s → checked h s ≡ s
unfolding checked validate
checked_kept h s r =
    rw (r.listens, checked) (rw r.forwards (rw (TlsReady-tls_valid h s r.tls) (repair_kept h s r)))
