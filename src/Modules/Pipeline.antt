-- ===== src/Modules/Pipeline.antt =====
-- src/modules/mod.rs: the trait `Module`, the pipeline, its registration and its `handle`.
-- `W` is all state that the modules keep between requests, `R` the type of raw connection handlers.
pub mod Registry
pub mod Order
pub mod Onion
use modular_rust_reverse_pro.Base.{
  ℕ, zero, suc, ◌+◌, Bool, true, false, not, Option, none, some, List, [], ◌∷◌, ◌++◌, map, Text,
  lit, ◌==◌, text_eq, if◌then◌else◌, length, take, retain, any, ℤ, pos, leb_ℤ, sort_by, unwrap_or,
  ◌>>=◌,
}
use mathlib.Core.List.{reverse}
use modular_rust_reverse_pro.Http.Request.{HttpRequest}
use modular_rust_reverse_pro.Http.Response.{HttpResponse, error}
use modular_rust_reverse_pro.Context.{Context}

-- What a call of `handle` may change: the request, the context, and the state of the modules.
pub record Turn (W : Type 0) : Type 0 where
  pub request : HttpRequest
  pub context : Context
  pub world : W

-- `on_response` borrows the request for reading, and changes the response.
pub record Answer (W : Type 0) : Type 0 where
  pub response : HttpResponse
  pub context : Context
  pub world : W

-- The trait `Module`
pub record Module (W : Type 0) : Type 0 where
  pub name : Text
  pub overrides : List Text
  pub handle : Turn W → Turn W × Option HttpResponse
  pub on_response : HttpRequest → Answer W → Answer W

unfoldable pub default_priority : Text → ℤ
default_priority name =
    if name == lit "active_health"
    then pos 10
    else if name == lit "request_id"
    then pos 20
    else if name == lit "rate_limiter"
    then pos 30
    else if name == lit "circuit_breaker"
    then pos 40
    else if name == lit "health_check"
    then pos 50
    else if name == lit "metrics_exporter"
    then pos 60
    else if name == lit "admin_api"
    then pos 70
    else if name == lit "cache"
    then pos 80
    else if name == lit "url_rewriter"
    then pos 90
    else if name == lit "compression"
    then pos 100
    else if name == lit "load_balancer"
    then pos 110
    else if name == lit "proxy_core"
    then pos 120
    else if name == lit "raw_tcp"
    then pos 130
    else pos 75

pub record Pipeline (W R : Type 0) : Type 0 where
  pub mods : List (ℤ × Module W)
  pub raw : Option R
  pub overridden : List Text
  pub to : ℕ

abbrev pub is_overridden : Text → List Text → Bool
is_overridden name names = any (λ n. n == name) names

module _ {W R : Type 0} where
  -- `Pipeline::new`
  unfoldable pub new : ℕ → Pipeline W R
  new t = record { mods = []; raw = none; overridden = []; to = t }

  unfoldable pub override_module : Text → Pipeline W R → Pipeline W R
  override_module name p = record p {
    overridden = if is_overridden name p.overridden then p.overridden else name ∷ p.overridden;
    mods = retain (λ e. not (e.1.name == name)) p.mods;
  }

  unfoldable pub override_all : List Text → Pipeline W R → Pipeline W R
  unfolding override_module
  override_all [] p = p
  override_all (o ∷ os) p = override_all os (override_module o p)

  unfoldable pub add_with_priority : Module W → ℤ → Pipeline W R → Pipeline W R
  unfolding override_all
  add_with_priority m priority p =
      let q = override_all m.overrides p in
      if is_overridden m.name p.overridden
      then p
      else record q { mods = q.mods ++ (priority, m) ∷ [] }

  unfoldable pub add : Module W → Pipeline W R → Pipeline W R
  add m p = add_with_priority m (default_priority m.name) p

  unfoldable pub set_raw_handler : R → Pipeline W R → Pipeline W R
  set_raw_handler h p = record p { raw = some h }

  -- `sort_by_key(|(p, _)| *p)`
  unfoldable pub sort : Pipeline W R → Pipeline W R
  sort p = record p { mods = sort_by (λ a b. leb_ℤ a.0 b.0) p.mods }

  unfoldable pub has_module : Text → Pipeline W R → Bool
  has_module name p = any (λ e. e.1.name == name) p.mods

  unfoldable pub module_names : Pipeline W R → List Text
  module_names p = map (λ e. e.1.name) p.mods

module _ {W : Type 0} where
  -- The first loop of `Pipeline::handle`, from the module with index `i`.
  unfoldable pub find_response :
      ℕ → List (ℤ × Module W) → Turn W → Turn W × Option (ℕ × HttpResponse)
  find_response i [] t = (t, none)
  find_response i ((p, m) ∷ ms) t =
      let (t', r) = m.handle t in
      elim r [ none ↦ find_response (i + 1) ms t' | some resp ↦ (t', some (i, resp)) ]

  -- The second loop, over the modules in the order of the list.
  unfoldable pub run_responses : HttpRequest → List (ℤ × Module W) → Answer W → Answer W
  run_responses q [] a = a
  run_responses q ((p, m) ∷ ms) a = run_responses q ms (m.on_response q a)

  respond : List (ℤ × Module W) → Turn W → HttpResponse → ℕ → Answer W
  respond mods t resp limit =
      run_responses t.request (reverse (take limit mods))
        (record { response = resp; context = t.context; world = t.world })

  unfoldable pub handle_mods : List (ℤ × Module W) → Turn W → HttpRequest × Answer W
  unfolding find_response run_responses respond
  handle_mods mods t =
      let (t', found) = find_response 0 mods t in
      elim found [
        | none ↦ (t'.request, respond mods t' (error 500 (lit "No handler")) (length mods))
        | some (i, resp) ↦ (t'.request, respond mods t' resp (i + 1))
      ]

module _ {W R : Type 0} where
  unfoldable pub handle : Pipeline W R → Turn W → HttpRequest × Answer W
  handle p t = handle_mods p.mods t
