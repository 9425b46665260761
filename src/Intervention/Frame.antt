-- ===== src/Intervention/Frame.antt =====
-- What an intervention poll leaves alone.
use coraza_nginx.Common.{◌≡◌, Bool, arith}
use coraza_nginx.Runtime.{
  Env, State, count, is_process_request_body, is_process_response_body, is_forward, is_body_forward,
  request_bytes, response_bytes,
}
use coraza_nginx.Logging.{log_handler}
use coraza_nginx.Intervention.{process_intervention, settle, deny, install_location}

-- From `s` to `t` no body byte was submitted, no body phase run and nothing sent down the filter
-- chain, and of the context only the flag `logged` may have changed.
pub record Quiet (s t : State) : Type 0 where
  pub same_error_page : t.req.error_page ≡ s.req.error_page
  pub same_header_only : t.req.header_only ≡ s.req.header_only
  pub same_request_bytes : request_bytes t.trace ≡ request_bytes s.trace
  pub same_response_bytes : response_bytes t.trace ≡ response_bytes s.trace
  pub same_request_phases :
      count is_process_request_body t.trace ≡ count is_process_request_body s.trace
  pub same_response_phases :
      count is_process_response_body t.trace ≡ count is_process_response_body s.trace
  pub same_forwards : count is_forward t.trace ≡ count is_forward s.trace
  pub same_body_forwards : count is_body_forward t.trace ≡ count is_body_forward s.trace
  pub same_ctx : t.ctx ≡ record (s.ctx) { logged = t.ctx.logged }

pub process_intervention-Quiet :
    (env : Env) (early_log : Bool) (s : State) → Quiet s (process_intervention env early_log s).1
unfolding process_intervention settle deny install_location log_handler
process_intervention-Quiet env early_log s = ground arith
