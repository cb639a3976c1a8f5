-- ===== src/Script/Stdlib/Messages/Agreement.antt =====
-- What the scripts do to messages beside the modules of src/modules.
use modular_rust_reverse_pro.Base.{
  ◌≡◌, refl, Bool, true, false, not, ◌||◌, Option, none, some, List, [], ◌∷◌, Text, lit, arith,
  text_eq, length, lookup, HashMap, unwrap_or, is_none, is_some, inl, inr, Option-cases,
  if◌then◌else◌, ltb, leb,
}
use modular_rust_reverse_pro.Strings.Split.{split, split_once}
use modular_rust_reverse_pro.Strings.Utf8.{Bytes}
use modular_rust_reverse_pro.Context.{Context, get}
use modular_rust_reverse_pro.Http.Request.{HttpRequest}
use modular_rust_reverse_pro.Http.Response.{HttpResponse, set_response_header}
use modular_rust_reverse_pro.Http.Response
use modular_rust_reverse_pro.Modules.Helpers.{filter_map}
use modular_rust_reverse_pro.Modules.Compression.{is_compressible, is_skipped, compressed_headers}
use modular_rust_reverse_pro.Modules.Compression
use modular_rust_reverse_pro.Modules.UrlRewriter.{rewrite}
use modular_rust_reverse_pro.Script.Stdlib.Arguments.{number_arg}
use modular_rust_reverse_pro.Script.Stdlib.Messages.{
  can_compress, encoded, std_compress_apply, apply_rules, setting_key, std_url_rewrite,
}

apply_rules-rewrite :
    (rules : List Text) (path : Text)
    → apply_rules rules path ≡ rewrite (filter_map (λ r. split_once b':' r) rules) path
unfolding apply_rules rewrite filter_map
apply_rules-rewrite [] path = refl
apply_rules-rewrite (rule ∷ rules) path = elim (Option-cases (split_once b':' rule)) [
  | inl quiet ↦ rw (quiet, apply_rules, filter_map) (apply_rules-rewrite rules path)
  | inr (r, e) ↦ rw (e, apply_rules, filter_map, apply_rules-rewrite rules path) refl
]

encoded-compressed_headers :
    (body : Bytes) (resp : HttpResponse)
    → encoded body resp
      ≡ record resp { body = body; headers = compressed_headers body resp.headers }
unfolding encoded compressed_headers set_response_header
encoded-compressed_headers body resp = refl

-- Tests one after another that all lead to the same result.
nested :
    {A : Type 0} (a b c d : Bool) (x y z : A)
    → y ≡ z
    → (if a then x else if b then x else if c then x else if d then x else y)
      ≡ (if a || b || c || d then x else z)
nested true b c d x y z h = refl
nested false true c d x y z h = refl
nested false false true d x y z h = refl
nested false false false true x y z h = refl
nested false false false false x y z h = h

shorter :
    (resp : HttpResponse) (body : Option Bytes)
    → (elim body as (λ x. HttpResponse) [
      | none ↦ resp
      | some compressed ↦
          if leb (length resp.body) (length compressed) then resp else encoded compressed resp
    ])
      ≡ (elim body as (λ x. HttpResponse) [
        | none ↦ resp
        | some compressed ↦
            if leb (length resp.body) (length compressed) then resp else record resp {
              body = compressed;
              headers = compressed_headers compressed resp.headers;
            }
      ])
shorter resp none = refl
shorter resp (some compressed) = rw (encoded-compressed_headers compressed resp) refl

-- `compress.apply` in a script does what the module's `on_response` does with the same encoder and least size, on every branch:
-- the two ask in the same order for the note in the context, the size, the encoding and the type.
pub std_compress_apply-eq-on_response :
    (gzip : Bytes → Option Bytes) (args : List Text) (resp : HttpResponse) (ctx : Context)
    → std_compress_apply gzip args resp ctx
      ≡ Compression.on_response gzip (number_arg args 0 256) resp ctx
unfolding std_compress_apply can_compress Compression.on_response is_skipped is_compressible
std_compress_apply-eq-on_response gzip args resp ctx =
    nested (is_none (get (lit "_accepts_gzip") ctx))
      (ltb (length resp.body) (number_arg args 0 256))
      (is_some (Response.get_header resp (lit "Content-Encoding")))
      (not (can_compress (unwrap_or (Response.get_header resp (lit "Content-Type")) []))) resp _ _
      (shorter resp (gzip resp.body))

-- `url_rewrite` in a script with the name of a setting rewrites the path as the module does with the rules that the setting lists, as
-- `from:to` between semicolons; a piece without a colon is no rule. With two arguments it does so with this one rule.
pub std_url_rewrite-eq-rewrite :
    (k from to rules : Text) (more : List Text) (config : HashMap Text Text) (req : HttpRequest)
    → lookup (setting_key k) config ≡ some rules
    → (std_url_rewrite (k ∷ []) config req ≡ record req {
      path = rewrite (filter_map (λ r. split_once b':' r) (split b';' rules)) req.path;
    })
      × (std_url_rewrite (from ∷ to ∷ more) config req
          ≡ record req { path = rewrite ((from, to) ∷ []) req.path })
unfolding std_url_rewrite rewrite
std_url_rewrite-eq-rewrite k from to rules more config req h =
    (rw (h, std_url_rewrite, apply_rules-rewrite (split b';' rules) req.path) refl, ground arith)
