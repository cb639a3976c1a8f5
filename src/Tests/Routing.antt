-- ===== src/Tests/Routing.antt =====
-- The modules that send a request on its way, and the configuration, on concrete values.
use modular_rust_reverse_pro.Base.{
  ◌≡◌, refl, Bool, true, false, none, some, [], ◌∷◌, Text, lit, text_eq, nat_eq, text_beq,
  if◌then◌else◌,
}
use modular_rust_reverse_pro.Context.{Context, get}
use modular_rust_reverse_pro.Modules.LoadBalancer.{RoundRobin}
use modular_rust_reverse_pro.Modules.LoadBalancer
use modular_rust_reverse_pro.Modules.LoadBalancer.Choice.{IsChoice, handle-IsChoice}
use modular_rust_reverse_pro.Config.{Srv, Host, checked}
use modular_rust_reverse_pro.Config.Validation.{IsRunnable, checked-IsRunnable}

abbrev blank_context : Context
blank_context = record { strings = []; state = []; started_at = 0 }

abbrev three : RoundRobin
three = record { backends = lit "a" ∷ lit "b" ∷ lit "c" ∷ []; idx = 4 }

-- Backend `b` is down.
abbrev but_b : Text → Bool
but_b addr = if text_beq addr (lit "b") then false else true

handle-IsChoice_example :
    (a : Text) × (get (lit "_backend_addr") (LoadBalancer.handle but_b blank_context three).1
      ≡ some a)
    × IsChoice but_b three.backends 1 a
    × ((LoadBalancer.handle but_b blank_context three).0.idx ≡ 5)
    × ((LoadBalancer.handle but_b blank_context three).2 ≡ none)
handle-IsChoice_example = handle-IsChoice but_b blank_context three (λ h. absurd (cc))

abbrev local : Host
local = record { parses = λ t. true; exists = λ t. false }

abbrev broken : Srv
broken = record {
  listen_addr = lit "127.0.0.1:3000";
  backend_addr = lit "127.0.0.1:8080";
  buffer_size = 16;
  client_timeout = 0;
  backend_timeout = 30;
  max_header_size = 8192;
  max_body_size = 10;
  max_connections = 0;
  worker_threads = 4;
  shutdown_timeout = 30;
  log_level = lit "info";
  logging = true;
  tls_cert = lit "missing.pem";
  tls_key = lit "missing.key";
  http2 = true;
  http3 = false;
  h3_port = 3443;
}

checked-IsRunnable_example : IsRunnable local (checked local broken)
checked-IsRunnable_example = checked-IsRunnable local broken refl refl
