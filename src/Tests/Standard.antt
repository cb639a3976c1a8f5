-- ===== src/Tests/Standard.antt =====
-- The functions of src/script/stdlib.rs on concrete arguments.
use modular_rust_reverse_pro.Base.{◌≡◌, List, [], ◌∷◌, Text, lit}
use modular_rust_reverse_pro.Sync.{unlocked}
use modular_rust_reverse_pro.Metrics.{zeroed}
use modular_rust_reverse_pro.Http.Response.{HttpResponse, error}
use modular_rust_reverse_pro.Modules.CircuitBreaker.{open_circuit}
use modular_rust_reverse_pro.Modules.CircuitBreaker
use modular_rust_reverse_pro.Script.Stdlib.Arguments.{number_arg}
use modular_rust_reverse_pro.Script.Stdlib.Breaking.{Breaker, std_cb_check, std_cb_record}
use modular_rust_reverse_pro.Script.Stdlib.Breaking.Agreement.{breaker_of, std_cb-eq-module}

abbrev failing : HttpResponse
failing = error 503 (lit "x")

-- Threshold 3 and 60 seconds.
abbrev limits : List Text
limits = lit "3" ∷ lit "60" ∷ []

abbrev opened : Breaker
opened = record {
  cb_failures = 3;
  cb_state = open_circuit;
  cb_opened = unlocked 5;
  metrics = zeroed;
}

std_cb-eq-module_example :
    (breaker_of 3 (number_arg limits 1 30) (std_cb_check 9 limits opened).0
      ≡ (CircuitBreaker.handle 9 (breaker_of 3 (number_arg limits 1 30) opened)).0)
    × ((std_cb_check 9 limits opened).1
        ≡ (CircuitBreaker.handle 9 (breaker_of 3 (number_arg limits 1 30) opened)).1)
    × (breaker_of (number_arg limits 0 5) 60 (std_cb_record 9 limits failing opened)
        ≡ CircuitBreaker.on_response 9 failing.status_code
            (breaker_of (number_arg limits 0 5) 60 opened))
std_cb-eq-module_example = std_cb-eq-module 9 60 3 limits failing opened

abbrev listed : List Text
listed = lit "$backends" ∷ []
