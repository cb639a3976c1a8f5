-- ===== src/Script/Runtime/Flow.antt =====
-- The flow of control through a list of commands.
use modular_rust_reverse_pro.Base.{ℕ, ◌≡◌, refl, ◌∙◌, true, Option, none, some, Text}
use modular_rust_reverse_pro.Http.Response.{HttpResponse}
use modular_rust_reverse_pro.Modules.Pipeline.{Turn}
use modular_rust_reverse_pro.Script.Syntax.{Commands, if_cmd, respond, nil, cons, append}
use modular_rust_reverse_pro.Script.Runtime.{
  StdLib, Settings, exec_request, exec_request_cmd, holds_request, respond_with, resolve_value,
  then_run,
}

then_run-nested :
    {W : Type 0} (f g h : Turn W → Turn W × Option HttpResponse) (r : Turn W × Option HttpResponse)
    → ((t : Turn W) → h t ≡ then_run g (f t))
    → then_run h r ≡ then_run g (then_run f r)
then_run-nested f g h (t, none) e = e t
then_run-nested f g h (t, some resp) e = refl

-- A list of commands is carried out part by part, and a part that makes a response is the last one.
pub exec_request-append :
    {W : Type 0} (std : StdLib W) (config : Settings) (cs ds : Commands) (t : Turn W)
    → exec_request std config (append cs ds) t
      ≡ then_run (exec_request std config ds) (exec_request std config cs t)
unfolding exec_request
exec_request-append std config nil ds t = refl
exec_request-append std config (cons c cs) ds t =
    then_run-nested (exec_request std config cs) (exec_request std config ds)
      (exec_request std config (append cs ds)) (exec_request_cmd std config c t)
      (λ t'. exec_request-append std config cs ds t')

quiet_then_run :
    {W : Type 0} (next : Turn W → Turn W × Option HttpResponse) (r : Turn W × Option HttpResponse)
    → r.1 ≡ none
    → then_run next r ≡ next r.0
quiet_then_run next (t, none) h = refl
quiet_then_run next (t, some resp) h = absurd (cc)

responding_if :
    {W : Type 0} (std : StdLib W) (config : Settings) (ds : Commands) (t : Turn W)
    (field op value : Text) (code : ℕ) (ct body : Text)
    → holds_request config field op value t ≡ true
    → exec_request std config (cons (if_cmd field op value (cons (respond code ct body) nil)) ds) t
      ≡ (t, some (respond_with code ct (resolve_value body config)))
unfolding exec_request
responding_if std config ds t field op value code ct body holds = rw holds

-- A `respond` ends the script: the commands in front of it take effect, unless one of them responds, and no
-- command behind it, in its own block or in one around it, is carried out.
pub respond_ends :
    {W : Type 0} (std : StdLib W) (config : Settings) (cs ds : Commands) (t : Turn W)
    (field op value : Text) (code : ℕ) (ct body : Text)
    → (exec_request std config cs t).1 ≡ none
    → holds_request config field op value (exec_request std config cs t).0 ≡ true
    → exec_request std config
        (append cs (cons (if_cmd field op value (cons (respond code ct body) nil)) ds))
        t
      ≡ ((exec_request std config cs t).0, some (respond_with code ct (resolve_value body config)))
respond_ends std config cs ds t field op value code ct body quiet holds =
    let rest = cons (if_cmd field op value (cons (respond code ct body) nil)) ds in
    exec_request-append std config cs rest t
    ∙ quiet_then_run (exec_request std config rest) (exec_request std config cs t) quiet
    ∙ responding_if std config ds (exec_request std config cs t).0 field op value code ct body holds
