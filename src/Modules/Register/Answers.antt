-- ===== src/Modules/Register/Answers.antt =====
-- The balancer names a backend and the module behind it asks it: together they answer every request.
use modular_rust_reverse_pro.Base.{◌⊎◌, ◌≡◌, true, List, lit, Option, is_some, text_eq}
use modular_rust_reverse_pro.Context.{get}
use modular_rust_reverse_pro.Http.Response.{HttpResponse}
use modular_rust_reverse_pro.Modules.Helpers.{Modules}
use modular_rust_reverse_pro.Modules.Pipeline.{Turn}
use modular_rust_reverse_pro.Modules.LoadBalancer
use modular_rust_reverse_pro.Modules.ProxyCore
use modular_rust_reverse_pro.Pool

-- The request has an answer, or a backend.
abbrev pub Routed : {W : Type 0} → Turn W × Option HttpResponse → Type 0
Routed (t, r) = (is_some r ≡ true) ⊎ (is_some (get (lit "_backend_addr") t.context) ≡ true)
