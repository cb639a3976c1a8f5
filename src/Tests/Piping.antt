-- ===== src/Tests/Piping.antt =====
-- The pipeline of src/modules/mod.rs with three small modules.
use modular_rust_reverse_pro.Base.{ℕ, ◌+◌, ◌*◌, ◌≡◌, refl, none, some, [], ◌∷◌, lit, pos}
use modular_rust_reverse_pro.Context
use modular_rust_reverse_pro.Http.Request.{HttpRequest}
use modular_rust_reverse_pro.Http.Response.{error}
use modular_rust_reverse_pro.Modules.Pipeline.{Turn, Module, Pipeline, handle}
use modular_rust_reverse_pro.Modules.Pipeline.Onion.{onion, handle-eq-onion}

abbrev root : HttpRequest
root = record {
  method = lit "GET";
  path = lit "/";
  version = lit "HTTP/1.1";
  headers = [];
  body = [];
}

abbrev empty : Context.Context
empty = record { strings = []; state = []; started_at = 0 }

-- Answers each request with its own status; counts the responses that it sees.
abbrev answering : ℕ → Module ℕ
answering code = record {
  name = lit "health_check";
  overrides = [];
  handle = λ t. (t, some (error code (lit "here")));
  on_response = λ q a. record a { world = a.world + 1 };
}

-- Answers nothing and doubles the count.
abbrev doubling : Module ℕ
doubling = record {
  name = lit "cache";
  overrides = lit "metrics_exporter" ∷ [];
  handle = λ t. (t, none);
  on_response = λ q a. record a { world = a.world * 2 };
}

abbrev pipe : Pipeline ℕ ℕ
pipe = record {
  mods = (pos 80, doubling) ∷ (pos 50, answering 204) ∷ (pos 80, answering 200) ∷ [];
  raw = none;
  overridden = [];
  to = 30;
}

abbrev turn : Turn ℕ
turn = record { request = root; context = empty; world = 3 }

handle-eq-onion_example : handle pipe turn ≡ onion pipe.mods turn
handle-eq-onion_example = handle-eq-onion pipe turn

onion_test : (onion pipe.mods turn).1.world ≡ 8
unfolding onion error
onion_test = refl
