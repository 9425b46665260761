-- ===== src/Rewrite/Examples.antt =====
-- Tests and witnesses of the rewrite handler.
use coraza_nginx.Common.{◌≡◌, ◌↔◌, ◌⊎◌, refl, is_neg, is_num, false, ngx_ok, ngx_declined, length}
use coraza_nginx.Runtime.{log_call, Call}
use coraza_nginx.Intervention.{interruption}
use coraza_nginx.Intervention.Verdict.{verdict, fetched}
use coraza_nginx.Samples.{creating, denying, arriving, incoming}
use coraza_nginx.Rewrite.{live, request_headers_phase, rewrite_handler}
use coraza_nginx.Rewrite.Phase1.{request_headers_phase_iff}
use coraza_nginx.Rewrite.Informs.{Ends, rewrite_handler-Ends}

length-live : length (live incoming.headers) ≡ 2
unfolding live
length-live = refl

rewrite_handler-Ends_example :
    Ends creating incoming arriving (rewrite_handler creating incoming arriving)
rewrite_handler-Ends_example = rewrite_handler-Ends creating incoming arriving refl refl

request_headers_phase_iff_example :
    let t = log_call Call.process_request_headers arriving in
    let pret = denying.results t.trace in
    (request_headers_phase denying arriving).0 ≡ ngx_declined ↔ (
      (is_neg pret ≡ false)
      × ((is_num interruption pret ≡ false)
          ⊎ (verdict (fetched denying t) arriving.req.header_sent ≡ ngx_ok)))
request_headers_phase_iff_example = request_headers_phase_iff denying arriving refl
