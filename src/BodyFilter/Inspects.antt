-- ===== src/BodyFilter/Inspects.antt =====
-- What the engine gets of a response in memory (src/ngx_http_coraza_body_filter.c), held back or not.
use coraza_nginx.Common.{
  ℕ, ◌+◌, ◌≡◌, ◌⊎◌, inl, inr, refl, sym, ap, subst, ◌∙◌, ℤ, true, false, ngx_ok, none, some, List,
  [], ◌∷◌, ◌++◌, append_assoc, append-nil, if◌then◌else◌, arith,
}
use coraza_nginx.Pack.{Bytes}
use coraza_nginx.Runtime.{
  Buf, Env, State, M, log_call, response_bytes, append_response_body, process_response_body,
}
use coraza_nginx.Logging.{log_handler}
use coraza_nginx.Intervention.{
  process_intervention, poll_after_process, settle, deny, install_location,
}
use coraza_nginx.BodyFilter.File.{read_body_data}
use coraza_nginx.BodyFilter.Stages.{
  Flow, resume, pass_chain, internal_error, react_filter, submit_bytes, submit_buf, inspect_stage,
  phase_stage,
}
use coraza_nginx.BodyFilter.Filter.{
  hold, copy_buf, delay_stage, filter_loop, flush_pending, after_loop, settle_flow, is_empty,
  body_filter,
}
use coraza_nginx.BodyFilter.Still.{last_phases}
use coraza_nginx.BodyFilter.Ends.{Ends, poll_stage, filter_loop-Ends}
use coraza_nginx.BodyFilter.Held.{body_filter-runs}
use coraza_nginx.BodyFilter.Payload.{payload, AllInMemory}

-- The last buffers of a chain.
abbrev is_last : Buf → ℕ
is_last b = if b.last_buf then 1 else 0

unfoldable pub lasts : List Buf → ℕ
lasts [] = 0
lasts (b ∷ bs) = is_last b + lasts bs

-- The engine got these bytes and ran phase 4 this often.
record Feeds (bytes : Bytes) (n : ℕ) (s t : State) : Type 0 where
  pub given : response_bytes t.trace ≡ response_bytes s.trace ++ bytes
  pub phases : last_phases t ≡ last_phases s + n
  pub same_processable : t.ctx.response_body_processable ≡ s.ctx.response_body_processable

abbrev Fed : Bytes → ℕ → State → Flow × State → Type 0
Fed bytes n s (none, t) = Feeds bytes n s t
Fed bytes n s (some rc, t) = Unit {0}

Feeds-append :
    (xs ys : Bytes) (m n : ℕ) (s t u : State)
    → Feeds xs m s t
    → Feeds ys n t u
    → Feeds (xs ++ ys) (m + n) s u
Feeds-append xs ys m n s t u f g = record {
  given = g.given ∙ ap (λ y. y ++ ys) f.given ∙ append_assoc (response_bytes s.trace) xs ys;
  phases = omega (arith, f.phases, g.phases);
  same_processable = g.same_processable ∙ f.same_processable;
}

Fed-after :
    (xs ys : Bytes) (m n : ℕ) (s t : State) (q : Flow × State)
    → Feeds xs m s t
    → Fed ys n t q
    → Fed (xs ++ ys) (m + n) s q
Fed-after xs ys m n s t (none, u) f g = Feeds-append xs ys m n s t u f g
Fed-after xs ys m n s t (some rc, u) f g = tt

resume-Fed :
    (xs ys : Bytes) (m n : ℕ) (s t : State) (r : Flow) (next : M Flow)
    → Fed xs m s (r, t)
    → (Feeds xs m s t → Fed ys n t (next t))
    → Fed (xs ++ ys) (m + n) s (resume r next t)
resume-Fed xs ys m n s t (some rc) next f h = tt
resume-Fed xs ys m n s t none next f h = Fed-after xs ys m n s t (next t) f (h f)

internal_error-Fed :
    (env : Env) (bytes : Bytes) (n : ℕ) (s t : State) → Fed bytes n s (internal_error env t)
unfolding internal_error
internal_error-Fed env bytes n s t = tt

Feeds-none : (s : State) → Feeds [] 0 s s
Feeds-none s = record {
  given = sym (append-nil (response_bytes s.trace));
  phases = omega arith;
  same_processable = refl;
}

react_filter-Fed : (env : Env) (ret : ℤ) (s : State) → Fed [] 0 s (react_filter env ret s)
unfolding react_filter internal_error
react_filter-Fed env ret s = ground (arith, Feeds-none s)

poll-Feeds : (env : Env) (s : State) → Feeds [] 0 s (process_intervention env false s).1
unfolding process_intervention settle deny install_location log_handler
poll-Feeds env s = ground (arith, append-nil (response_bytes s.trace))

poll_stage-Fed : (env : Env) (s : State) → Fed [] 0 s (poll_stage env s)
poll_stage-Fed env s =
    let (ret, t) = process_intervention env false s in
    Fed-after [] [] 0 0 s t (react_filter env ret t) (poll-Feeds env s) (react_filter-Fed env ret t)

submit_bytes-Fed : (env : Env) (bs : Bytes) (s : State) → Fed bs 0 s (submit_bytes env (some bs) s)
unfolding submit_bytes
submit_bytes-Fed env [] s = Feeds-none s
submit_bytes-Fed env (b ∷ bs) s =
    ground (arith, internal_error-Fed env (b ∷ bs) 0 s (log_call (append_response_body (b ∷ bs)) s))

submit_buf-Fed :
    (env : Env) (b : Buf) (s : State) → b.in_memory ≡ true → Fed b.bytes 0 s (submit_buf env b s)
unfolding submit_buf read_body_data
submit_buf-Fed env b s m =
    ground (arith, internal_error-Fed env b.bytes 0 s s, submit_bytes-Fed env b.bytes s)

inspect_stage-Fed :
    (env : Env) (b : Buf) (s : State)
    → b.in_memory ≡ true
    → s.ctx.response_body_processable ≡ true
    → Fed b.bytes 0 s (inspect_stage env b s)
unfolding inspect_stage
inspect_stage-Fed env b s m on =
    let (r, t) = submit_buf env b s in
    let fed =
      resume-Fed b.bytes [] 0 0 s t r (poll_stage env) (submit_buf-Fed env b s m)
        (λ f. poll_stage-Fed env t) in
    ground (arith, on, append-nil b.bytes, fed)

phase_stage-Fed : (env : Env) (b : Buf) (s : State) → Fed [] (is_last b) s (phase_stage env b s)
unfolding phase_stage poll_after_process
phase_stage-Fed env b s =
    let s₁ = log_call process_response_body s in
    ground (
      arith,
      append-nil (response_bytes s.trace),
      internal_error-Fed env [] 1 s s₁,
      poll_stage-Fed env s₁,
      react_filter-Fed env ngx_ok s₁,
    )

delay_stage-Fed :
    (env : Env) (i : ℕ) (b : Buf) (s : State)
    → b.in_memory ≡ true
    → Fed [] 0 s (delay_stage env i b s)
unfolding delay_stage copy_buf hold internal_error read_body_data
delay_stage-Fed env i b s m = ground (arith, append-nil (response_bytes s.trace))

filter_loop-Fed :
    (env : Env) (i : ℕ) (bs : List Buf) (s : State)
    → AllInMemory bs
    → s.ctx.response_body_processable ≡ true
    → Fed (payload bs) (lasts bs) s (filter_loop env i bs s)
unfolding filter_loop payload lasts
filter_loop-Fed env i [] s m on = Feeds-none s
filter_loop-Fed env i (b ∷ bs) s m on =
    let (r₁, s₁) = inspect_stage env b s in
    let (r₂, s₂) = phase_stage env b s₁ in
    let (r₃, s₃) = delay_stage env i b s₂ in
    let total : 0 + (is_last b + (0 + lasts bs)) ≡ is_last b + lasts bs = omega arith in
    subst (λ n. Fed (b.bytes ++ payload bs) n s (filter_loop env i (b ∷ bs) s)) total
      (resume-Fed b.bytes (payload bs) 0 (is_last b + (0 + lasts bs)) s s₁ r₁ _
        (inspect_stage-Fed env b s m.0 on)
        λ f.
          resume-Fed [] (payload bs) (is_last b) (0 + lasts bs) s₁ s₂ r₂ _
            (phase_stage-Fed env b s₁)
            λ g.
              resume-Fed [] (payload bs) 0 (lasts bs) s₂ s₃ r₃ _ (delay_stage-Fed env i b s₂ m.0)
                λ h.
                  filter_loop-Fed env (i + 1) bs s₃ m.1
                    (h.same_processable ∙ g.same_processable ∙ f.same_processable ∙ on))

-- What follows the loop submits nothing.
after_loop-same :
    (env : Env) (bufs : List Buf) (s : State)
    → let t = (after_loop env bufs s).1 in
      (response_bytes t.trace ≡ response_bytes s.trace) × (last_phases t ≡ last_phases s)
unfolding after_loop flush_pending pass_chain
after_loop-same env bufs s = ground arith

-- The engine has the chain's bytes and ran phase 4, or the response is refused.
abbrev pub Inspected : State → ℤ × State → Type 0
Inspected s r =
    (r.1.ctx.intervention_triggered ≡ true)
    ⊎ ((response_bytes r.1.trace ≡ response_bytes s.trace ++ payload s.chain)
        × (last_phases r.1 ≡ last_phases s + lasts s.chain))

settle_flow-Inspected :
    (env : Env) (s : State) (r : Flow × State)
    → Fed (payload s.chain) (lasts s.chain) s r
    → Ends s r
    → Inspected s (settle_flow env s.chain r.0 r.1)
unfolding settle_flow
settle_flow-Inspected env s (none, t) f e =
    let (bytes, phases) = after_loop-same env s.chain t in inr (bytes ∙ f.given, phases ∙ f.phases)
settle_flow-Inspected env s (some rc, t) f e = inl e.armed

-- Where the engine wants the body, nothing was refused and no error page is being served, a call of
-- the filter with a chain in memory, whether the headers are held back or not: the engine gets all of
-- the chain's bytes, in order, behind those that it had, and phase 4 runs once for each last buffer
-- of the chain and not without one; or the transaction is marked as intervened upon.
pub body_filter-Inspected :
    (env : Env) (s : State)
    → s.attached ≡ true
    → is_empty s.chain ≡ false
    → s.ctx.intervention_triggered ≡ false
    → s.req.error_page ≡ false
    → s.ctx.response_body_processable ≡ true
    → AllInMemory s.chain
    → Inspected s (body_filter env s)
body_filter-Inspected env s at some_chain untriggered no_page on m =
    subst (Inspected s) (sym (body_filter-runs env s at some_chain untriggered)) (
      settle_flow-Inspected env s (filter_loop env 0 s.chain s)
        (filter_loop-Fed env 0 s.chain s m on) (filter_loop-Ends env 0 s.chain s no_page))
