-- ===== src/Script/Runtime.antt =====
-- src/script/runtime.rs. The functions of src/script/stdlib.rs that commands call are the interface `StdLib`,
-- over the state `W` that they keep.
pub mod Flow
use modular_rust_reverse_pro.Base.{
  ℕ, Bool, true, false, not, Option, none, some, ◌>>=◌, List, [], ◌∷◌, map, Text, lit, ◌==◌,
  text_eq, if◌then◌else◌, length, HashMap, lookup, unwrap_or, nat_beq,
}
use modular_rust_reverse_pro.Strings.Chars.{trim_matches, strip_prefix, starts_with, contains}
use modular_rust_reverse_pro.Strings.Numbers.{to_string}
use modular_rust_reverse_pro.Strings.Utf8.{into_bytes}
use modular_rust_reverse_pro.Context.{Context, get, set}
use modular_rust_reverse_pro.Http.Headers.{get_hdr, set_header}
use modular_rust_reverse_pro.Http.Request.{HttpRequest, set_request_header}
use modular_rust_reverse_pro.Http.Response.{HttpResponse, set_response_header}
use modular_rust_reverse_pro.Modules.Pipeline.{Turn, Answer, Module}
use modular_rust_reverse_pro.Script.Syntax.{
  Command, Commands, if_cmd, respond, set_header_cmd, log, set_ctx, std_call, nil, cons,
}

abbrev pub Settings : Type 0
Settings = HashMap Text Text

-- `call_request` and `call_response`
pub record StdLib (W : Type 0) : Type 0 where
  pub call_request : Text → List Text → Settings → Turn W → Turn W × Option HttpResponse
  pub call_response : Text → List Text → Settings → HttpRequest → Answer W → Answer W

unfoldable pub resolve_value : Text → Settings → Text
resolve_value value config = elim (strip_prefix (lit "$") value) [
  | some key ↦ unwrap_or (lookup key config) []
  | none ↦ trim_matches b'"' value
]

unfoldable pub resolve_field : Text → HttpRequest → Option HttpResponse → Context → Settings → Text
resolve_field field req resp ctx config =
    if field == lit "path"
    then req.path
    else if field == lit "method"
    then req.method
    else if field == lit "version"
    then req.version
    else if field == lit "status"
    then unwrap_or (resp >>= (λ r. some (to_string r.status_code))) []
    else if field == lit "client_ip"
    then unwrap_or (get (lit "_client_ip") ctx) (lit "?")
    else elim (strip_prefix (lit "header.") field) [
      | some name ↦ unwrap_or (get_hdr req.headers name) []
      | none ↦ elim (strip_prefix (lit "$") field) [
        | some key ↦ unwrap_or (lookup key config) []
        | none ↦ field
      ]
    ]

unfoldable pub eval_cond : Text → Text → Text → Bool
eval_cond left op right =
    if op == lit "=="
    then left == right
    else if op == lit "!="
    then not (left == right)
    else if op == lit "contains"
    then contains right left
    else false

unfoldable pub status_text : ℕ → Text
status_text code =
    if nat_beq code 200
    then lit "OK"
    else if nat_beq code 304
    then lit "Not Modified"
    else if nat_beq code 400
    then lit "Bad Request"
    else if nat_beq code 403
    then lit "Forbidden"
    else if nat_beq code 404
    then lit "Not Found"
    else if nat_beq code 429
    then lit "Too Many Requests"
    else if nat_beq code 500
    then lit "Internal Server Error"
    else if nat_beq code 502
    then lit "Bad Gateway"
    else if nat_beq code 503
    then lit "Service Unavailable"
    else if nat_beq code 504
    then lit "Gateway Timeout"
    else lit "OK"

unfoldable pub respond_with : ℕ → Text → Text → HttpResponse
unfolding status_text
respond_with code content_type body = record {
  version = lit "HTTP/1.1";
  status_code = code;
  status_text = status_text code;
  headers =
      (lit "Content-Type", content_type)
      ∷ (lit "Content-Length", to_string (length (into_bytes body)))
      ∷ [];
  body = into_bytes body;
}

abbrev on_context : {W : Type 0} → (Context → Context) → Turn W → Turn W
on_context f t = record t { context = f t.context }

abbrev on_answer_context : {W : Type 0} → (Context → Context) → Answer W → Answer W
on_answer_context f a = record a { context = f a.context }

module _ {W : Type 0} (config : Settings) where
  -- The condition of an `If` on the way in.
  unfoldable pub holds_request : Text → Text → Text → Turn W → Bool
  holds_request field op value t =
      eval_cond (resolve_field field t.request none t.context config) op
        (resolve_value value config)

  -- On the way out the status can be asked for.
  unfoldable pub holds_response : Text → Text → Text → HttpRequest → Answer W → Bool
  holds_response field op value q a =
      eval_cond (resolve_field field q (some a.response) a.context config) op
        (resolve_value value config)

-- What follows a command: nothing more once there is a response.
abbrev pub then_run :
    {W : Type 0}
    → (Turn W → Turn W × Option HttpResponse)
    → Turn W × Option HttpResponse
    → Turn W × Option HttpResponse
then_run next (t, none) = next t
then_run next (t, some resp) = (t, some resp)

unfoldable mutual
  pub exec_request_cmd :
      {W : Type 0} → StdLib W → Settings → Command → Turn W → Turn W × Option HttpResponse
  exec_request_cmd std config (if_cmd field op value body) t =
      let inner = exec_request std config body t in
      if holds_request config field op value t then inner else (t, none)
  exec_request_cmd std config (respond code ct body) t =
      (t, some (respond_with code ct (resolve_value body config)))
  exec_request_cmd std config (set_header_cmd name value) t =
      (record t { request = set_request_header name (resolve_value value config) t.request }, none)
  exec_request_cmd std config (log level msg) t = (t, none)
  exec_request_cmd std config (set_ctx key value) t =
      (on_context (set key (resolve_value value config)) t, none)
  exec_request_cmd std config (std_call func args) t =
      std.call_request func (map (λ a. resolve_value a config) args) config t

  pub exec_request :
      {W : Type 0} → StdLib W → Settings → Commands → Turn W → Turn W × Option HttpResponse
  exec_request std config nil t = (t, none)
  exec_request std config (cons c cs) t =
      then_run (λ t'. exec_request std config cs t') (exec_request_cmd std config c t)

unfoldable mutual
  pub exec_response_cmd :
      {W : Type 0} → StdLib W → Settings → Command → HttpRequest → Answer W → Answer W
  exec_response_cmd std config (if_cmd field op value body) q a =
      let inner = exec_response std config body q a in
      if holds_response config field op value q a then inner else a
  exec_response_cmd std config (set_header_cmd name value) q a = record a {
    response = set_response_header name (resolve_value value config) a.response;
  }
  exec_response_cmd std config (log level msg) q a = a
  exec_response_cmd std config (set_ctx key value) q a =
      on_answer_context (set key (resolve_value value config)) a
  exec_response_cmd std config (std_call func args) q a =
      std.call_response func (map (λ x. resolve_value x config) args) config q a
  exec_response_cmd std config (respond code ct body) q a = a

  pub exec_response :
      {W : Type 0} → StdLib W → Settings → Commands → HttpRequest → Answer W → Answer W
  exec_response std config nil q a = a
  exec_response std config (cons c cs) q a =
      exec_response std config cs q (exec_response_cmd std config c q a)

-- `ScriptModule` of src/script/loader.rs
unfoldable pub script_module :
    {W : Type 0} → StdLib W → Settings → Text → Commands → Commands → Module W
script_module std config name on_req on_resp = record {
  name = name;
  overrides = [];
  handle = λ t. exec_request std config on_req t;
  on_response = λ q a. exec_response std config on_resp q a;
}
