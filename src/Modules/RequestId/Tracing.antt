-- ===== src/Modules/RequestId/Tracing.antt =====
-- The id on the request, in the context, and on the response.
use modular_rust_reverse_pro.Base.{
  ℕ, ◌≡◌, ◌∙◌, some, ◌++◌, ◌∷◌, [], lit, text_eq, unwrap_or, lookup-insert_self,
}
use modular_rust_reverse_pro.Context.{Context, get, set}
use modular_rust_reverse_pro.Http.Headers.Laws.{get_hdr-set_header, eq_ignore_ascii_case_refl}
use modular_rust_reverse_pro.Http.Request.{HttpRequest, get_header, set_request_header}
use modular_rust_reverse_pro.Http.Response.{HttpResponse}
use modular_rust_reverse_pro.Modules.RequestId.{handle, on_response, generate_id, hdr_request_id}

-- The request goes on with one id, which is the one that it came with, or else a new one; the context holds the
-- same id; and the response carries it in a last header line.
pub id_followed :
    (micros counter : ℕ) (r : HttpRequest) (c : Context) (resp : HttpResponse)
    → let id = unwrap_or (get_header r hdr_request_id) (generate_id micros counter) in
      let after = handle micros counter r c in
      (get_header after.1 hdr_request_id ≡ some id)
      × (get (lit "_request_id") after.2 ≡ some id)
      × ((on_response resp after.2).headers ≡ resp.headers ++ (hdr_request_id, id) ∷ [])
unfolding handle on_response get set set_request_header
id_followed micros counter r c resp =
    let id = unwrap_or (get_header r hdr_request_id) (generate_id micros counter) in
    let kept = lookup-insert_self (lit "_request_id") id c.strings in
    (
      get_hdr-set_header hdr_request_id hdr_request_id id r.headers
          ∙ rw (eq_ignore_ascii_case_refl hdr_request_id),
      kept,
      rw (kept, on_response),
    )
