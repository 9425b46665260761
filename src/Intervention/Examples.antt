-- ===== src/Intervention/Examples.antt =====
-- Tests and witnesses of the polls.
use coraza_nginx.Common.{
  ◌≡◌, ◌↔◌, ◌⊎◌, refl, false, pos, is_neg, is_num, ngx_ok, internal_server_error, some, [], ◌∷◌,
}
use coraza_nginx.Samples.{denying, redirecting, start, two_parts}
use coraza_nginx.Intervention.{interruption, safe_prefix, process_intervention, poll_after_process}
use coraza_nginx.Intervention.Verdict.{verdict, fetched, poll_after_process-ok}
use coraza_nginx.Intervention.Location.{Redirects, process_intervention-Redirects}

cut_at_line_break : safe_prefix (47 ∷ 97 ∷ 13 ∷ 10 ∷ 120 ∷ []) ≡ 47 ∷ 97 ∷ []
unfolding safe_prefix
cut_at_line_break = refl

poll_after_process-ok_example :
    ((poll_after_process denying false (pos 1) (start two_parts)).0 ≡ ngx_ok ↔ (
      (is_neg (pos 1) ≡ false)
      × ((is_num interruption (pos 1) ≡ false)
          ⊎ (verdict (fetched denying (start two_parts)) false ≡ ngx_ok))))
    × ((is_neg (pos 1) ≡ false)
        ⊎ (poll_after_process denying false (pos 1) (start two_parts)
            ≡ (internal_server_error, start two_parts)))
poll_after_process-ok_example = poll_after_process-ok denying false (pos 1) (start two_parts)

process_intervention-Redirects_example :
    Redirects
      (some redirecting)
      (start two_parts).req.out
      (process_intervention denying false (start two_parts)).1.req.out
process_intervention-Redirects_example =
    process_intervention-Redirects denying false (start two_parts)
