-- ===== src/Rewrite/Phase1.antt =====
-- Phase 1 and what the rewrite handler decides on it (src/ngx_http_coraza_rewrite.c).
use coraza_nginx.Common.{
  suc, ◌≡◌, ◌↔◌, ◌⊎◌, ℤ, true, false, is_neg, is_pos, is_num, ngx_ok, ngx_declined, arith,
}
use coraza_nginx.Runtime.{Env, State, Call, count, is_forward, is_process_request_headers, log_call}
use coraza_nginx.Logging.{log_handler}
use coraza_nginx.Intervention.{
  interruption, install_location, deny, process_intervention, poll_after_process,
}
use coraza_nginx.Rewrite.{answer, request_headers_phase}
use coraza_nginx.Rewrite.Given.{before_phase}
use coraza_nginx.Intervention.Verdict.{verdict, fetched, poll_after_process-ok}

-- What the poll leaves alone.
record Polled (s t : State) : Type 0 where
  pub phases : count is_process_request_headers t.trace ≡ count is_process_request_headers s.trace
  pub before : before_phase t.trace ≡ before_phase s.trace
  pub forwards : count is_forward t.trace ≡ count is_forward s.trace
  pub same_error_page : t.req.error_page ≡ s.req.error_page

process_intervention-Polled : (env : Env) (s : State) → Polled s (process_intervention env true s).1
unfolding process_intervention deny install_location log_handler
process_intervention-Polled env s = ground arith

poll_after_process-Polled :
    (env : Env) (pret : ℤ) (s : State) → Polled s (poll_after_process env true pret s).1
unfolding poll_after_process
poll_after_process-Polled env pret s = ground (arith, process_intervention-Polled env s)

-- The request goes on, or the transaction is denied.
abbrev pub Decided : ℤ × State → Type 0
Decided r = (r.0 ≡ ngx_declined) ⊎ ((is_pos r.0 ≡ true) × (r.1.ctx.intervention_triggered ≡ true))

-- A run of phase 1.
pub record Phase1 (s : State) (r : ℤ × State) : Type 0 where
  pub phases :
      count is_process_request_headers r.1.trace ≡ suc (count is_process_request_headers s.trace)
  pub before : before_phase r.1.trace ≡ s.trace
  pub forwards : count is_forward r.1.trace ≡ count is_forward s.trace
  pub decided : Decided r

answer-Decided : (ret : ℤ) (s : State) → Decided (answer ret s) × ((answer ret s).1.trace ≡ s.trace)
unfolding answer
answer-Decided ret s = ground arith

pub request_headers_phase-Phase1 : (env : Env) (s : State) → Phase1 s (request_headers_phase env s)
unfolding request_headers_phase
request_headers_phase-Phase1 env s =
    let t = log_call Call.process_request_headers s in
    let pret = env.results t.trace in
    let (ret, u) = poll_after_process env true pret t in
    ground (arith, poll_after_process-Polled env pret t, answer-Decided ret u)

-- Phase 1 of a request that is not for an error page lets it go on exactly if the engine has
-- evaluated the phase and, where it reports an interruption, holds no intervention that denies.
pub request_headers_phase_iff :
    (env : Env) (s : State)
    → s.req.error_page ≡ false
    → let t = log_call Call.process_request_headers s in
      let pret = env.results t.trace in
      (request_headers_phase env s).0 ≡ ngx_declined ↔ (
        (is_neg pret ≡ false)
        × ((is_num interruption pret ≡ false)
            ⊎ (verdict (fetched env t) s.req.header_sent ≡ ngx_ok)))
unfolding request_headers_phase answer
request_headers_phase_iff env s page =
    let t = log_call Call.process_request_headers s in
    let pret = env.results t.trace in
    ground (arith, poll_after_process-ok env true pret t, poll_after_process-Polled env pret t)
