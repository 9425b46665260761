-- ===== src/BodyFilter/Ends.antt =====
-- How a stage of the filter's loop goes on or ends.
use coraza_nginx.Common.{
  ℕ, ◌+◌, ◌≡◌, ◌∙◌, ◌⊎◌, ℤ, Bool, true, false, eq_code, ngx_ok, Option, none, some, List, [], ◌∷◌,
  length, arith,
}
use coraza_nginx.Pack.{Bytes}
use coraza_nginx.Runtime.{
  Buf, Env, State, Trace, M, count, is_forward, finalize_request, next_header_filter, pure, branch,
  ◌>>=◌, log_call, append_response_body, process_response_body, alloc_chunk, alloc_chain_link,
  calloc_buf, pnalloc,
}
use coraza_nginx.Redirect
use coraza_nginx.Intervention.{is_redirect_status, process_intervention, poll_after_process}
use coraza_nginx.Intervention.Frame.{process_intervention-Quiet}
use coraza_nginx.BodyFilter.File.{read_body_data, append_response_body_file}
use coraza_nginx.BodyFilter.Stages.{
  Flow, finalize, internal_error, react_filter, submit_bytes, submit_buf, inspect_stage,
  phase_stage, pass_chain, resume, then_go,
}
use coraza_nginx.BodyFilter.Filter.{delay_stage, filter_loop, hold, copy_buf}
use coraza_nginx.BodyFilter.Still.{
  Still, forwards, body_forwards, direct_loop-Still, read_body_data-Still,
}

-- Nothing was sent, and the flags that the loop turns on are the same.
pub record Same (s t : State) : Type 0 where
  pub same_forwards : forwards t ≡ forwards s
  pub same_body_forwards : body_forwards t ≡ body_forwards s
  pub same_error_page : t.req.error_page ≡ s.req.error_page
  pub same_delayed : t.ctx.headers_delayed ≡ s.ctx.headers_delayed
  pub same_triggered : t.ctx.intervention_triggered ≡ s.ctx.intervention_triggered

abbrev pub asks_response : Trace → Bool
asks_response (finalize_request status ∷ t) = true
asks_response _ = false

abbrev pub sends_header : Trace → Bool
sends_header (next_header_filter ∷ t) = true
sends_header _ = false

-- The last call is an answer without a body: an error response that nginx is asked for, or the header
-- of a redirect alone.
abbrev pub Answered : State → Type 0
Answered s =
    (asks_response s.trace ≡ true)
    ⊎ ((sends_header s.trace ≡ true)
        × (is_redirect_status s.req.out.status ≡ true)
        × (s.req.header_only ≡ true))

abbrev pub earlier : Trace → Trace
earlier [] = []
earlier (c ∷ t) = t

-- The response is replaced: the flag is armed, nothing is held back any more, one answer was sent
-- down the chain, with nothing before it, and no body.
pub record Replaced (s t : State) : Type 0 where
  pub armed : t.ctx.intervention_triggered ≡ true
  pub released : t.ctx.headers_delayed ≡ false
  pub answered : Answered t
  pub one_answer : count is_forward (earlier t.trace) ≡ forwards s
  pub no_body : body_forwards t ≡ body_forwards s

-- By the flow: gone on or ended, where no error page is being served.
abbrev pub Ends : State → Flow × State → Type 0
Ends s (none, t) = Same s t
Ends s (some rc, t) = Replaced s t

internal_error-Ends : (env : Env) (s : State) → Ends s (internal_error env s)
unfolding internal_error Redirect.cleared
internal_error-Ends env s = ground arith

react_filter-Ends :
    (env : Env) (ret : ℤ) (s : State) → s.req.error_page ≡ false → Ends s (react_filter env ret s)
unfolding react_filter pass_chain finalize internal_error Redirect.cleared
react_filter-Ends env ret s e = ground arith

Ends-after : (s t : State) (q : Flow × State) → Same s t → Ends t q → Ends s q
Ends-after s t (none, u) e k = ground arith
Ends-after s t (some rc, u) e k = ground arith

resume-Ends :
    (s t : State) (r : Flow) (next : M Flow)
    → Ends s (r, t)
    → (Same s t → Ends t (next t))
    → Ends s (resume r next t)
resume-Ends s t (some rc) next e h = e
resume-Ends s t none next e h = Ends-after s t (next t) e (h e)

branch-Ends :
    (c : Bool) (m k : M Flow) (s : State) → Ends s (m s) → Ends s (k s) → Ends s (branch c m k s)
branch-Ends true m k s p q = p
branch-Ends false m k s p q = q

-- A poll and what follows it.
abbrev pub poll_stage : Env → M Flow
poll_stage env = do ret ← process_intervention env false; react_filter env ret

poll_stage-Ends : (env : Env) (s : State) → s.req.error_page ≡ false → Ends s (poll_stage env s)
poll_stage-Ends env s e =
    let (ret, t) = process_intervention env false s in
    let quiet = process_intervention-Quiet env false s in
    Ends-after s t (react_filter env ret t) (ground (arith, quiet))
      (react_filter-Ends env ret t (ground (arith, quiet)))

submit_bytes-Ends : (env : Env) (b : Option Bytes) (s : State) → Ends s (submit_bytes env b s)
unfolding submit_bytes
submit_bytes-Ends env none s = internal_error-Ends env s
submit_bytes-Ends env (some bytes) s =
    ground (arith, internal_error-Ends env (log_call (append_response_body bytes) s))

-- A file range was submitted whole, or the flag is armed.
file-cases :
    (env : Env) (b : Buf) (s : State)
    → let (rc, t) = append_response_body_file env b s in
      (forwards t ≡ forwards s)
      × (body_forwards t ≡ body_forwards s)
      × (eq_code ngx_ok rc ≡ true → Same s t)
      × (eq_code ngx_ok rc ≡ false → t.ctx.intervention_triggered ≡ true)
unfolding append_response_body_file
file-cases env b s = ground (arith, direct_loop-Still env b (log_call alloc_chunk s))

Still-Same : {s t : State} → Still s t → Same s t
Still-Same h = ground arith

submit_buf-Ends : (env : Env) (b : Buf) (s : State) → Ends s (submit_buf env b s)
unfolding submit_buf finalize Redirect.cleared
submit_buf-Ends env b s =
    let (bytes, t) = read_body_data env b s in
    ground (
      arith,
      file-cases env b s,
      internal_error-Ends env s,
      Still-Same (read_body_data-Still env b s),
      submit_bytes-Ends env bytes t,
    )

inspect_stage-Ends :
    (env : Env) (b : Buf) (s : State) → s.req.error_page ≡ false → Ends s (inspect_stage env b s)
unfolding inspect_stage
inspect_stage-Ends env b s e =
    branch-Ends s.ctx.response_body_processable (then_go (submit_buf env b) (poll_stage env))
      (pure none) s
      (resume-Ends s _ _ (poll_stage env) (submit_buf-Ends env b s)
        (λ same. poll_stage-Ends env _ (ground (arith, same))))
      (ground arith)

phase_stage-Ends :
    (env : Env) (b : Buf) (s : State) → s.req.error_page ≡ false → Ends s (phase_stage env b s)
unfolding phase_stage poll_after_process
phase_stage-Ends env b s e =
    let s₁ = log_call process_response_body s in
    ground (
      arith,
      internal_error-Ends env s₁,
      poll_stage-Ends env s₁ e,
      react_filter-Ends env ngx_ok s₁ e,
    )

copy_buf-Ends :
    (env : Env) (bytes : Option Bytes) (i : ℕ) (b : Buf) (s : State)
    → Ends s (copy_buf env bytes i b s)
unfolding copy_buf hold
copy_buf-Ends env none i b s = internal_error-Ends env s
copy_buf-Ends env (some bytes) i b s =
    let s₁ = log_call calloc_buf s in
    ground (
      arith,
      internal_error-Ends env s₁,
      internal_error-Ends env (log_call (pnalloc (length bytes)) s₁),
    )

delay_stage-Ends : (env : Env) (i : ℕ) (b : Buf) (s : State) → Ends s (delay_stage env i b s)
unfolding delay_stage hold
delay_stage-Ends env i b s =
    let s₁ = log_call alloc_chain_link s in
    let (bytes, s₂) = read_body_data env b s₁ in
    ground (
      arith,
      internal_error-Ends env s₁,
      internal_error-Ends env (log_call calloc_buf s₁),
      Still-Same (read_body_data-Still env b s₁),
      copy_buf-Ends env bytes i b s₂,
    )

-- Where no error page is being served, the loop goes through the whole chain with nothing sent, or
-- it stops with the response replaced.
pub filter_loop-Ends :
    (env : Env) (i : ℕ) (bs : List Buf) (s : State)
    → s.req.error_page ≡ false
    → Ends s (filter_loop env i bs s)
unfolding filter_loop
filter_loop-Ends env i [] s e = ground arith
filter_loop-Ends env i (b ∷ bs) s e = resume-Ends s _ _ _ (inspect_stage-Ends env b s e) λ p.
    let e₁ = p.same_error_page ∙ e in
    resume-Ends _ _ _ _ (phase_stage-Ends env b _ e₁) λ q.
      let e₂ = q.same_error_page ∙ e₁ in
      resume-Ends _ _ _ _ (delay_stage-Ends env i b _)
        λ r. filter_loop-Ends env (i + 1) bs _ (r.same_error_page ∙ e₂)
