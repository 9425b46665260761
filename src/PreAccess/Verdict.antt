-- ===== src/PreAccess/Verdict.antt =====
-- The answers of the request-body phase, and the flag that stops the later filters
-- (src/ngx_http_coraza_pre_access.c).
use coraza_nginx.Common.{
  ◌≡◌, refl, ◌⊎◌, inl, ℤ, Bool, true, false, is_neg, is_num, ngx_ok, ngx_declined,
  internal_server_error, Option, none, some, List, [], ◌∷◌, length, ltb, if◌then◌else◌, arith,
}
use coraza_nginx.Runtime.{
  Buf, Env, Intervention, State, M, RequestBody, log_call, process_request_body,
  append_request_body,
}
use coraza_nginx.Intervention.{interruption, process_intervention, poll_after_process}
use coraza_nginx.Intervention.Verdict.{verdict, fetched, process_intervention-verdict}
use coraza_nginx.Intervention.Frame.{process_intervention-Quiet}
use coraza_nginx.PreAccess.{
  react, process_request_body_phase, read_file_body, append_request_body_file, walk, finish_body,
  submit_parts, submit_body, inspect_body,
}

-- The answer of phase 2, by the engine's result for it, the intervention that it holds then, and
-- two flags of the request.
abbrev pub phase_verdict : ℤ → Option Intervention → Bool → Bool → ℤ
phase_verdict pret it error_page header_sent =
    if is_neg pret
    then internal_server_error
    else if error_page
    then ngx_declined
    else if is_num interruption pret
    then go (verdict it header_sent)
    else ngx_declined
  where
    go : ℤ → ℤ
    go v = if is_num 0 v then ngx_declined else if is_neg v then internal_server_error else v

-- Phase 2 fails closed: an engine error is a 500, and so is an intervention with a header already
-- sent; a denial is answered by its status; the request goes on (NGX_DECLINED) if the engine
-- evaluated the phase and does not deny, or if nginx is already serving the error page.
pub process_request_body_phase-verdict :
    (env : Env) (s : State)
    → let s₁ = log_call process_request_body s in
      (process_request_body_phase env s).0
      ≡ phase_verdict (env.results s₁.trace) (fetched env s₁) s.req.error_page s.req.header_sent
unfolding process_request_body_phase poll_after_process
process_request_body_phase-verdict env s =
    let s₁ = log_call process_request_body s in
    ground
      (arith, process_intervention-verdict env false s₁, process_intervention-Quiet env false s₁)

-- An answer that is not NGX_DECLINED has armed the flag.
abbrev pub Armed : ℤ × State → Type 0
Armed r = (r.0 ≡ ngx_declined) ⊎ (r.1.ctx.intervention_triggered ≡ true)

react-Armed : (ret : ℤ) (k : M ℤ) (s : State) → Armed (k s) → Armed (react ret k s)
unfolding react
react-Armed ret k s h = ground arith

phase-Armed : (env : Env) (s : State) → Armed (process_request_body_phase env s)
unfolding process_request_body_phase
phase-Armed env s = ground arith

finish_body-Armed : (env : Env) (s : State) → Armed (finish_body env s)
unfolding finish_body
finish_body-Armed env s =
    react-Armed (process_intervention env false s).0 (process_request_body_phase env)
      (process_intervention env false s).1 (phase-Armed env _)

-- The state after a buffer of the chain was submitted.
abbrev pub sent : Buf → State → State
sent b s = if ltb 0 (length b.bytes) then log_call (append_request_body b.bytes) s else s

walk-Armed :
    (env : Env) (k : M ℤ)
    → ((s : State) → Armed (k s))
    → (bs : List Buf) (s : State) → Armed (walk env bs k s)
unfolding walk
walk-Armed env k h [] s = h s
walk-Armed env k h (b ∷ bs) s =
    let s₁ = sent b s in
    let (ret, s₂) = process_intervention env false s₁ in
    ground (arith, h s₁, react-Armed ret (walk env bs k) s₂ (walk-Armed env k h bs s₂))

file-Armed :
    (env : Env) (size : ℤ) (s : State)
    → ((append_request_body_file env size s).0 ≡ ngx_ok)
      ⊎ Armed (append_request_body_file env size s)
unfolding append_request_body_file read_file_body
file-Armed env size s = ground arith

submit_parts-Armed :
    (env : Env) (bufs : List Buf) (file : Option ℤ) (s : State)
    → Armed (submit_parts env bufs file s)
unfolding submit_parts
submit_parts-Armed env bufs (some size) s =
    let (rc, s₁) = append_request_body_file env size s in
    ground (arith, file-Armed env size s, finish_body-Armed env s₁)
submit_parts-Armed env bufs none s = walk-Armed env (finish_body env) (finish_body-Armed env) bufs s

submit_body-Armed : (env : Env) (b : Option RequestBody) (s : State) → Armed (submit_body env b s)
unfolding submit_body
submit_body-Armed env none s = inl refl
submit_body-Armed env (some b) s = submit_parts-Armed env b.bufs b.temp_file _

-- Whatever the body is and however the engine, the disk and the memory answer: the inspection of
-- the body ends in NGX_DECLINED or with `intervention_triggered` set.
pub inspect_body-Armed : (env : Env) (s : State) → Armed (inspect_body env s)
unfolding inspect_body
inspect_body-Armed env s = ground (arith, submit_body-Armed env s.req.request_body s)
