-- ===== src/Modules/HealthCheck.antt =====
-- src/modules/health_check.rs and src/modules/metrics_exporter.rs: the endpoints that the proxy answers itself.
use modular_rust_reverse_pro.Base.{
  not, ◌||◌, Option, none, some, [], ◌∷◌, Text, lit, ◌==◌, text_eq, if◌then◌else◌, length,
}
use modular_rust_reverse_pro.Strings.Numbers.{to_string}
use modular_rust_reverse_pro.Strings.Utf8.{into_bytes}
use modular_rust_reverse_pro.Http.Request.{HttpRequest}
use modular_rust_reverse_pro.Http.Response.{HttpResponse, json_response}

unfoldable pub handle_health : Text → HttpRequest → Option HttpResponse
handle_health endpoint r =
    if r.path == endpoint then some (json_response 200 (lit "{\"status\":\"ok\"}")) else none

-- The body is the text of `snapshot_prometheus`.
unfoldable pub handle_metrics : Text → Text → HttpRequest → Option HttpResponse
handle_metrics body endpoint r =
    if not (r.method == lit "GET") || not (r.path == endpoint)
    then none
    else some (record {
      version = lit "HTTP/1.1";
      status_code = 200;
      status_text = lit "OK";
      headers =
          (lit "Content-Type", lit "text/plain; version=0.0.4; charset=utf-8")
          ∷ (lit "Content-Length", to_string (length (into_bytes body)))
          ∷ [];
      body = into_bytes body;
    })
