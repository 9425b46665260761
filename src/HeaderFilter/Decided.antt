-- ===== src/HeaderFilter/Decided.antt =====
-- Phase 3 and what the header filter decides on it (src/ngx_http_coraza_header_filter.c).
use coraza_nginx.Common.{
  suc, ◌≡◌, ◌⊎◌, ℤ, ◌&&◌, Option, true, false, is_pos, ngx_ok, [], ◌∷◌, arith,
}
use coraza_nginx.Runtime.{
  Env, LocFlags, Request, State, count, is_forward, is_process_response_headers, finalize_request,
  next_header_filter, clear_accept_ranges,
}
use coraza_nginx.Headers.Seen.{response_headers}
use coraza_nginx.Intervention.{
  install_location, deny, process_intervention, poll_after_process, is_redirect_status,
}
use coraza_nginx.Redirect.{cleared, prepare_redirect, forward_header}
use coraza_nginx.BodyFilter.Stages.{has_location}
use coraza_nginx.HeaderFilter.Resolvers.{Head}
use coraza_nginx.HeaderFilter.Filter.{
  is_held, hold_or_send, refuse, response_headers_phase, headers_phase, decide, phase_and_decide,
}

-- What the poll leaves alone of the header's part of the state.
record Polled (env : Env) (s : State) (t : State) : Type 0 where
  pub seen : response_headers env t.trace ≡ response_headers env s.trace
  pub phases : count is_process_response_headers t.trace ≡ count is_process_response_headers s.trace
  pub forwards : count is_forward t.trace ≡ count is_forward s.trace
  pub same_ctx : t.ctx ≡ s.ctx
  pub same_mcf : t.mcf ≡ s.mcf
  pub same_error_page : t.req.error_page ≡ s.req.error_page
  pub same_header_only : t.req.header_only ≡ s.req.header_only
  pub same_status : t.req.out.status ≡ s.req.out.status
  pub same_type : t.req.out.content_type ≡ s.req.out.content_type

process_intervention-Polled :
    (env : Env) (s : State) → Polled env s (process_intervention env false s).1
unfolding process_intervention deny install_location
process_intervention-Polled env s = ground arith

poll_after_process-Polled :
    (env : Env) (pret : ℤ) (s : State) → Polled env s (poll_after_process env false pret s).1
unfolding poll_after_process
poll_after_process-Polled env pret s = ground (arith, process_intervention-Polled env s)

-- Phase 3 has run once, and nothing has gone to the client.
pub record Phase3 (env : Env) (s t : State) : Type 0 where
  pub seen : response_headers env t.trace ≡ response_headers env s.trace
  pub phases :
      count is_process_response_headers t.trace ≡ suc (count is_process_response_headers s.trace)
  pub forwards : count is_forward t.trace ≡ count is_forward s.trace
  pub same_ctx :
      t.ctx ≡ record (s.ctx) { response_body_processable = t.ctx.response_body_processable }
  pub same_mcf : t.mcf ≡ s.mcf
  pub same_error_page : t.req.error_page ≡ s.req.error_page
  pub same_header_only : t.req.header_only ≡ s.req.header_only
  pub same_status : t.req.out.status ≡ s.req.out.status
  pub same_type : t.req.out.content_type ≡ s.req.out.content_type

response_headers_phase-Phase3 :
    (env : Env) (hd : Head) (s : State) → Phase3 env s (response_headers_phase env hd s).1
unfolding response_headers_phase
response_headers_phase-Phase3 env hd s = ground arith

pub headers_phase-Phase3 :
    (env : Env) (hd : Head) (s : State) → Phase3 env s (headers_phase env hd s).1
unfolding headers_phase
headers_phase-Phase3 env hd s =
    let (pret, t) = response_headers_phase env hd s in
    ground (arith, response_headers_phase-Phase3 env hd s, poll_after_process-Polled env pret t)

is_held-same :
    (env : Env) (hd : Head) (s t : State)
    → Phase3 env s t
    → is_held hd t.mcf t.req ≡ is_held hd s.mcf s.req
unfolding is_held
is_held-same env hd s t p =
    cc (p.same_mcf, p.same_error_page, p.same_header_only, p.same_status, p.same_type)

-- The header is held back, or something has gone to the client.
pub record Outcome (env : Env) (hd : Head) (s : State) (r : ℤ × State) : Type 0 where
  pub seen : response_headers env r.1.trace ≡ response_headers env s.trace
  pub phases :
      count is_process_response_headers r.1.trace ≡ suc (count is_process_response_headers s.trace)
  pub same_processed : r.1.ctx.processed ≡ s.ctx.processed
  pub choice :
      ((is_held hd s.mcf s.req ≡ true)
        × (r.0 ≡ ngx_ok)
        × (count is_forward r.1.trace ≡ count is_forward s.trace)
        × (r.1.ctx.headers_delayed ≡ true)
        × (r.1.ctx.pending_chain ≡ [])
        × (r.1.ctx.intervention_triggered ≡ s.ctx.intervention_triggered))
      ⊎ ((count is_forward r.1.trace ≡ suc (count is_forward s.trace))
          × (r.1.ctx.headers_delayed ≡ s.ctx.headers_delayed)
          × ((is_held hd s.mcf s.req ≡ false) ⊎ (r.1.ctx.intervention_triggered ≡ true)))

-- The header of an error page is not held back.
is_held-error_page :
    (hd : Head) (mcf : Option LocFlags) (r : Request)
    → r.error_page ≡ true
    → is_held hd mcf r ≡ false
unfolding is_held
is_held-error_page hd mcf r e = ground arith

decide-Outcome :
    (env : Env) (hd : Head) (ret : ℤ) (s t : State)
    → Phase3 env s t
    → Outcome env hd s (decide env hd ret t)
unfolding decide refuse hold_or_send forward_header prepare_redirect
decide-Outcome env hd ret s t p =
    ground (arith, is_held-same env hd s t p, is_held-error_page hd s.mcf s.req)

pub phase_and_decide-Outcome :
    (env : Env) (hd : Head) (s : State) → Outcome env hd s (phase_and_decide env hd s)
unfolding phase_and_decide
phase_and_decide-Outcome env hd s =
    decide-Outcome env hd (headers_phase env hd s).0 s (headers_phase env hd s).1
      (headers_phase-Phase3 env hd s)

-- Where phase 3 and its poll end with a status, on a response that is not an error page, the header
-- is never held back: the transaction is marked as intervened upon. On a redirect with a Location the
-- header is sent with this status and that Location, without a body and without what described the
-- original's (its length, type, encoding, date and tag); on any other status, or without a Location,
-- nginx is asked for an error response of this very status.
pub phase_and_decide-refuses :
    (env : Env) (hd : Head) (ret : ℤ) (s : State)
    → (headers_phase env hd s).0 ≡ ret
    → is_pos ret ≡ true
    → s.req.error_page ≡ false
    → let t = (headers_phase env hd s).1 in
      let r = phase_and_decide env hd s in
      (r.1.ctx.intervention_triggered ≡ true)
      × (r.1.ctx.headers_delayed ≡ s.ctx.headers_delayed)
      × (((is_redirect_status ret && has_location t.req.out.location ≡ false)
            × (r.1.trace ≡ finalize_request ret ∷ t.trace)
            × (r.1.req ≡ t.req))
          ⊎ ((is_redirect_status ret ≡ true)
              × (has_location t.req.out.location ≡ true)
              × (r.1.trace ≡ next_header_filter ∷ clear_accept_ranges ∷ t.trace)
              × (r.1.req.out ≡ cleared ret t.req.out)
              × (r.1.req.header_only ≡ true)))
unfolding phase_and_decide decide refuse prepare_redirect forward_header
phase_and_decide-refuses env hd ret s e positive page =
    ground (arith, headers_phase-Phase3 env hd s)
