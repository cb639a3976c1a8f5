-- ===== src/Modules/Register/Order.antt =====
-- Which modules `register_all` puts into the pipeline, and in which order they stand after `sort`.
use modular_rust_reverse_pro.Base.{
  take, ℕ, ◌≡◌, refl, ap, ◌∙◌, Bool, true, not, ◌&&◌, List, [], ◌∷◌, Text, lit, text_eq, All, arith,
  is_empty, retain, inl, inr, Bool-cases, sort_by-eq_self, is_some, Option,
}
use modular_rust_reverse_pro.Config.{Srv}
use modular_rust_reverse_pro.Metrics.{Moment, Metrics}
use modular_rust_reverse_pro.Server.Http1.Counting.{KeepsCounts, Counts, handle_h1-Counts}
use modular_rust_reverse_pro.Server.Http1.{ClientStream, handle_h1}
use modular_rust_reverse_pro.Modules.Helpers.{Modules}
use modular_rust_reverse_pro.Modules.UrlRewriter.{load_rules}
use modular_rust_reverse_pro.Modules.Pipeline.{
  Pipeline, module_names, sort, new, set_raw_handler, override_all, is_overridden,
}
use modular_rust_reverse_pro.Modules.Pipeline.Order.{by_priority}
use modular_rust_reverse_pro.Modules.Instances.{Host, Statics, World}
use modular_rust_reverse_pro.Modules.Register.{
  Setup, RawTcp, enabled, fresh, raw_overrides, register_active_health, register_request_id,
  register_rate_limiter, register_circuit_breaker, register_health_check, register_metrics_exporter,
  register_admin_api, register_cache, register_url_rewriter, register_compression,
  register_load_balancer, register_raw_tcp, register_modules, register_all,
}
use modular_rust_reverse_pro.Modules.Register.Steps.{chosen}
use modular_rust_reverse_pro.Modules.Register.Growth.{
  Grown, register_request_id-Grown, register_rate_limiter-Grown, register_circuit_breaker-Grown,
  register_health_check-Grown, register_metrics_exporter-Grown, register_cache-Grown,
  register_url_rewriter-Grown, register_compression-Grown, register_load_balancer-Grown,
  register_proxy_core-Grown, register_active_health-Grown, register_admin_api-Grown,
}
use modular_rust_reverse_pro.Modules.Register.Overriding.{
  stays, stays_all, override_all-names, override_all-keeps,
}

module _ (v : Host) (begin : ℕ) (at : Moment) (c : Modules v.toml) (server : Srv) where
  -- The modules in the order of their priorities, and whether the configuration has them.
  abbrev pub built_in : List (Text × Bool)
  built_in =
      let on = enabled v begin at c server in
      (lit "request_id", on (lit "request_id"))
      ∷ (lit "rate_limiter", on (lit "rate_limiter"))
      ∷ (lit "circuit_breaker", on (lit "circuit_breaker"))
      ∷ (lit "health_check", on (lit "health_check"))
      ∷ (lit "metrics_exporter", on (lit "metrics_exporter"))
      ∷ (lit "cache", on (lit "cache"))
      ∷ (lit "url_rewriter", on (lit "url_rewriter") && not (is_empty (load_rules v.toml c)))
      ∷ (lit "compression", on (lit "compression"))
      ∷ (lit "load_balancer", true)
      ∷ (lit "proxy_core", on (lit "proxy_core"))
      ∷ []

  fresh-Grown : (statics : Statics v) → Grown [] 0 (fresh v begin at c server statics)
  unfolding module_names new
  fresh-Grown statics = record {
    names = refl;
    free = refl;
    plain = refl;
    sorted = tt;
    below = tt;
    kept = tt;
  }

  -- What is registered before the balancer.
  abbrev pub front : Statics v → Setup v
  front statics = register_compression v begin at c server (
      register_url_rewriter v begin at c server (
        register_cache v begin at c server (
          register_admin_api v begin at c server (
            register_metrics_exporter v begin at c server (
              register_health_check v begin at c server (
                register_circuit_breaker v begin at c server (
                  register_rate_limiter v begin at c server (
                    register_request_id v begin at c server (
                      register_active_health v begin at c server
                        (fresh v begin at c server statics))))))))))

  pub front-Grown : (statics : Statics v) → Grown (take 8 built_in) 100 (front statics)
  front-Grown statics =
      let s = fresh v begin at c server statics in
      let checking = register_active_health v begin at c server s in
      let with_ids = register_request_id v begin at c server checking in
      let limited = register_rate_limiter v begin at c server with_ids in
      let broken = register_circuit_breaker v begin at c server limited in
      let checked = register_health_check v begin at c server broken in
      let measured = register_metrics_exporter v begin at c server checked in
      let administered = register_admin_api v begin at c server measured in
      let cached = register_cache v begin at c server administered in
      let rewriting = register_url_rewriter v begin at c server cached in
      register_compression-Grown v begin at c server _ 90 rewriting (omega arith) (
        register_url_rewriter-Grown v begin at c server _ 80 cached (omega arith) (
          register_cache-Grown v begin at c server _ 60 administered (omega arith) (
            register_admin_api-Grown v begin at c server _ 60 measured (
              register_metrics_exporter-Grown v begin at c server _ 50 checked (omega arith) (
                register_health_check-Grown v begin at c server _ 40 broken (omega arith) (
                  register_circuit_breaker-Grown v begin at c server _ 30 limited (omega arith) (
                    register_rate_limiter-Grown v begin at c server _ 20 with_ids (omega arith) (
                      register_request_id-Grown v begin at c server _ 0 checking (omega arith) (
                        register_active_health-Grown v begin at c server _ 0 s
                          (fresh-Grown statics))))))))))

  pub balanced-Grown :
      (statics : Statics v)
      → Grown (take 9 built_in) 110 (register_load_balancer v begin at c server (front statics))
  balanced-Grown statics =
      register_load_balancer-Grown v begin at c server _ 100 (front statics) (omega arith)
        (front-Grown statics)

  pub register_modules-Grown :
      (statics : Statics v)
      → Grown built_in 120
          (register_modules v begin at c server (fresh v begin at c server statics))
  unfolding register_modules
  register_modules-Grown statics =
      register_proxy_core-Grown v begin at c server _ 110
        (register_load_balancer v begin at c server (front statics)) (omega arith)
        (balanced-Grown statics)

  -- The names that remain beside the raw handler.
  abbrev pub loaded : List Text
  loaded =
      retain
        (λ n. not (enabled v begin at c server (lit "raw_tcp") && is_overridden n raw_overrides))
        (chosen built_in)

  pub register_all_names :
      (statics : Statics v)
      → module_names (register_all v begin at c server (fresh v begin at c server statics)).pipeline
        ≡ loaded
  unfolding register_all register_raw_tcp set_raw_handler module_names
  register_all_names statics =
      let s = register_modules v begin at c server (fresh v begin at c server statics) in
      let h = register_modules-Grown statics in
      elim (Bool-cases (enabled v begin at c server (lit "raw_tcp"))) [
        | inl raw ↦
            rw (raw, register_raw_tcp)
              (override_all-names raw_overrides s.pipeline
                ∙ ap (retain (stays raw_overrides)) h.names)
        | inr plain ↦ rw (plain, register_raw_tcp) (h.names ∙ stays_all (chosen built_in))
      ]

  abbrev pub started : Statics v → Pipeline (World v) RawTcp
  started statics =
      sort (register_all v begin at c server (fresh v begin at c server statics)).pipeline

  -- What `sort` and the raw handler make of a pipeline.
  finish :
      (l : List (Text × Bool)) (k : ℕ) (s : Setup v)
      → Grown l k s
      → let p = sort (register_raw_tcp v begin at c server s).pipeline in
        (module_names p
          ≡ retain
              (λ n.
                not (enabled v begin at c server (lit "raw_tcp") && is_overridden n raw_overrides))
              (chosen l))
        × (is_some p.raw ≡ enabled v begin at c server (lit "raw_tcp"))
        × All (λ e. KeepsCounts e.1) p.mods
  unfolding register_raw_tcp sort set_raw_handler module_names
  finish l k s h = elim (Bool-cases (enabled v begin at c server (lit "raw_tcp"))) [
    | inl raw ↦
        let p = override_all raw_overrides s.pipeline in
        let kept =
          override_all-keeps (λ e. KeepsCounts e.1) raw_overrides s.pipeline h.sorted h.kept in
        rw (raw, register_raw_tcp)
          (rw (sort_by-eq_self by_priority p.mods kept.0) (
            override_all-names raw_overrides s.pipeline ∙ ap (retain (stays raw_overrides)) h.names,
            refl,
            kept.1,
          ))
    | inr plain ↦
        rw (plain, register_raw_tcp)
          (rw (sort_by-eq_self by_priority s.pipeline.mods h.sorted)
            (h.names ∙ stays_all (chosen l), ap is_some h.plain, h.kept))
  ]

  -- Whatever the configuration says, the pipeline that `register_all` and `sort` give, with no script loaded, holds exactly the
  -- modules whose configuration enables them, in the order of their default priorities: the balancer always, the
  -- rewriter only if it has rules, and none of the five that the raw handler overrides where that is enabled. The raw
  -- handler is set if and only if it is enabled.
  pub register_all_order :
      (statics : Statics v)
      → (module_names (started statics) ≡ loaded)
        × (is_some (started statics).raw ≡ enabled v begin at c server (lit "raw_tcp"))
  unfolding register_all
  register_all_order statics =
      let done = finish built_in 120 _ (register_modules-Grown statics) in (done.0, done.1)

  -- A connection to the proxy with its own modules gets one response at most, and each response that is sent is counted
  -- once, as good or as bad (in 64 bits), whatever the configuration and the state of the modules
  -- are.
  pub register_all-Counts :
      (statics : Statics v) (later : ℕ) (seen : List ℕ) (alt_svc : Option Text)
      (client : ClientStream) (m : Metrics) (w : Statics v)
      → Counts m
          (handle_h1 at.now later seen alt_svc server.buffer_size (started statics) client m w)
  unfolding register_all
  register_all-Counts statics later seen alt_svc client m w =
      handle_h1-Counts at.now later seen alt_svc (started statics)
        (finish built_in 120 _ (register_modules-Grown statics)).2 server.buffer_size client m w
