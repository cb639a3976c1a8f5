-- ===== src/Modules/UrlRewriter.antt =====
-- src/modules/url_rewriter.rs: the first rule whose prefix the path has rewrites it.
pub mod Rules
use modular_rust_reverse_pro.Base.{
  ℕ, Bool, true, false, Option, none, some, ◌>>=◌, List, [], ◌∷◌, Text, lit, text_eq, if◌then◌else◌,
  unwrap_or, lookup,
}
use modular_rust_reverse_pro.Toml.{Toml}
use modular_rust_reverse_pro.Strings.Chars.{starts_with, replace_first}
use modular_rust_reverse_pro.Http.Request.{HttpRequest}
use modular_rust_reverse_pro.Http.Response.{HttpResponse}
use modular_rust_reverse_pro.Modules.Helpers.{Modules, filter_map}

unfoldable pub load_rules : (t : Toml) → Modules t → List (Text × Text)
unfolding filter_map
load_rules t c =
    unwrap_or
      (do
        v ← lookup (lit "url_rewriter") c
        r ← t.get v (lit "rules")
        rules ← t.as_table r
        some (filter_map (λ (k, w). t.as_str w >>= λ s. some (k, s)) rules))
      []

unfoldable pub rewrite : List (Text × Text) → Text → Text
rewrite [] path = path
rewrite ((p, repl) ∷ rules) path =
    let later = rewrite rules path in
    if starts_with p path then replace_first p repl path else later

unfoldable pub handle : List (Text × Text) → HttpRequest → HttpRequest × Option HttpResponse
unfolding rewrite
handle rules r = (record r { path = rewrite rules r.path }, none)
