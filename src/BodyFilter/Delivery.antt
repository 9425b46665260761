-- ===== src/BodyFilter/Delivery.antt =====
-- Where the bytes of a response that is held back go (src/ngx_http_coraza_body_filter.c).
use coraza_nginx.Common.{
  ℕ, ◌+◌, ◌≡◌, sym, ap, ◌∙◌, ℤ, true, false, Bool-cases, inl, inr, eq_code, ltb, ngx_error, none,
  some, List, [], ◌∷◌, ◌++◌, append_assoc, append-nil, arith, subst,
}
use coraza_nginx.Pack.{Bytes}
use coraza_nginx.Runtime.{Buf, Env, State, Trace, M, next_body_filter, next_header_filter}
use coraza_nginx.BodyFilter.Stages.{Flow, resume, inspect_stage, phase_stage}
use coraza_nginx.BodyFilter.Filter.{
  max_delayed_body, delay_stage, filter_loop, is_request_processed, flush_pending, after_loop,
  settle_flow, is_empty, body_filter,
}
use coraza_nginx.BodyFilter.Ends.{Ends, filter_loop-Ends}
use coraza_nginx.BodyFilter.Held.{choose, body_filter-runs}
use coraza_nginx.BodyFilter.Payload.{
  payload, payload-append, AllInMemory, Waits, Goes, Adds, inspect_stage-Goes, phase_stage-Goes,
  delay_stage-Adds,
}

-- The loop's outcome: it returns, or these bytes are now at the end of what is held.
abbrev pub Kept : Bytes → State → Flow × State → Type 0
Kept bytes s (none, t) =
    (payload t.ctx.pending_chain ≡ payload s.ctx.pending_chain ++ bytes)
    × (t.ctx.headers_delayed ≡ true)
Kept bytes s (some rc, t) = Unit {0}

Kept-after :
    (bytes : Bytes) (s t : State) (q : Flow × State) → Waits s t → Kept bytes t q → Kept bytes s q
Kept-after bytes s t (none, u) w k = (k.0 ∙ ap (λ p. payload p ++ bytes) w.same_pending, k.1)
Kept-after bytes s t (some rc, u) w k = tt

payload_link : (x : Buf) → payload (x ∷ []) ≡ x.bytes
unfolding payload
payload_link x = append-nil x.bytes

Kept-step :
    (bytes rest : Bytes) (s t : State) (q : Flow × State)
    → Adds bytes s (none, t)
    → Kept rest t q
    → Kept (bytes ++ rest) s q
Kept-step bytes rest s t (some rc, u) a k = tt
Kept-step bytes rest s t (none, u) (x, p, e, d, n) (k, l) = (
  k
      ∙ ap (λ c. payload c ++ rest) p
      ∙ ap (λ c. c ++ rest) (payload-append s.ctx.pending_chain (x ∷ []))
      ∙ ap (λ c. (payload s.ctx.pending_chain ++ c) ++ rest) (payload_link x ∙ e)
      ∙ append_assoc (payload s.ctx.pending_chain) bytes rest,
  l,
)

resume-Kept :
    (bytes : Bytes) (s t : State) (r : Flow) (next : M Flow)
    → Goes s (r, t)
    → (Waits s t → Kept bytes t (next t))
    → Kept bytes s (resume r next t)
resume-Kept bytes s t (some rc) next e h = tt
resume-Kept bytes s t none next e h = Kept-after bytes s t (next t) e (h e)

resume-Adds :
    (bytes rest : Bytes) (s t : State) (r : Flow) (next : M Flow)
    → Adds bytes s (r, t)
    → (t.ctx.headers_delayed ≡ true → Kept rest t (next t))
    → Kept (bytes ++ rest) s (resume r next t)
resume-Adds bytes rest s t (some rc) next e h = tt
resume-Adds bytes rest s t none next (x, p, e, d, n) h =
    Kept-step bytes rest s t (next t) (x, p, e, d, n) (h d)

pub filter_loop-Kept :
    (env : Env) (i : ℕ) (bs : List Buf) (s : State)
    → AllInMemory bs
    → s.ctx.headers_delayed ≡ true
    → Kept (payload bs) s (filter_loop env i bs s)
unfolding filter_loop payload
filter_loop-Kept env i [] s m d = (sym (append-nil (payload s.ctx.pending_chain)), d)
filter_loop-Kept env i (b ∷ bs) s m d =
    let (r₁, s₁) = inspect_stage env b s in
    let (r₂, s₂) = phase_stage env b s₁ in
    let (r₃, s₃) = delay_stage env i b s₂ in
    resume-Kept _ s s₁ r₁ _ (inspect_stage-Goes env b s) λ p.
      let d₁ = p.same_delayed ∙ d in
      resume-Kept _ s₁ s₂ r₂ _ (phase_stage-Goes env b s₁) λ q.
        let d₂ = q.same_delayed ∙ d₁ in
        resume-Adds b.bytes (payload bs) s₂ s₃ r₃ _ (delay_stage-Adds env i b s₂ m.0 d₂)
          λ d₃. filter_loop-Kept env (i + 1) bs s₃ m.1 d₃

-- Where the bytes of the response are after a call of the filter that finds the headers held back.
pub data Delivers (s : State) (r : ℤ × State) : Type 0 where
  -- held back: those of before and behind them those of the chain
  keeps :
      r.1.ctx.headers_delayed ≡ true
      → payload r.1.ctx.pending_chain ≡ payload s.ctx.pending_chain ++ payload s.chain
      → Delivers s r
  -- sent, in one chain right behind the headers
  sends :
      (held : List Buf) (rest : Trace)
      → r.1.trace ≡ next_body_filter held ∷ next_header_filter ∷ rest
      → payload held ≡ payload s.ctx.pending_chain ++ payload s.chain
      → Delivers s r
  -- dropped, as the headers could not be sent
  drops : (rest : Trace) → r.0 ≡ ngx_error → r.1.trace ≡ next_header_filter ∷ rest → Delivers s r
  -- replaced by an answer of the filter's own
  refuses : r.1.ctx.intervention_triggered ≡ true → Delivers s r

flush_pending-Delivers :
    (env : Env) (s t : State)
    → payload t.ctx.pending_chain ≡ payload s.ctx.pending_chain ++ payload s.chain
    → Delivers s (flush_pending env t)
unfolding flush_pending
flush_pending-Delivers env s t k =
    elim (Bool-cases (eq_code ngx_error (env.results (next_header_filter ∷ t.trace)))) [
      | inl bad ↦ drops t.trace (ground arith) (ground arith)
      | inr fine ↦ sends t.ctx.pending_chain t.trace (ground arith) k
    ]

after_loop-Delivers :
    (env : Env) (bufs : List Buf) (s t : State)
    → t.ctx.headers_delayed ≡ true
    → payload t.ctx.pending_chain ≡ payload s.ctx.pending_chain ++ payload s.chain
    → Delivers s (after_loop env bufs t)
unfolding after_loop
after_loop-Delivers env bufs s t d k =
    choose (Delivers s) t.ctx.headers_delayed _ _
      (λ on.
        choose (Delivers s) (is_request_processed false bufs) _ _
          (λ last. flush_pending-Delivers env s t k)
          (λ more.
            choose (Delivers s) (ltb max_delayed_body t.ctx.pending_bytes) _ _
              (λ over. flush_pending-Delivers env s t k) (λ under. keeps d k)))
      (λ off. absurd (ground arith))

settle_flow-Delivers :
    (env : Env) (s : State) (r : Flow × State)
    → Kept (payload s.chain) s r
    → Ends s r
    → Delivers s (settle_flow env s.chain r.0 r.1)
unfolding settle_flow
settle_flow-Delivers env s (none, t) k e = after_loop-Delivers env s.chain s t k.1 k.0
settle_flow-Delivers env s (some rc, t) k e = refuses e.armed

-- While the headers are held back, nothing was refused and no error page is being served, a call of
-- the filter with a chain in memory loses no byte: the bytes held before, and behind them those of
-- the chain, are held on, or go out in this order in one chain right behind the headers; or the
-- headers could not be sent, or the response is refused.
pub body_filter-Delivers :
    (env : Env) (s : State)
    → s.attached ≡ true
    → is_empty s.chain ≡ false
    → s.ctx.intervention_triggered ≡ false
    → s.req.error_page ≡ false
    → s.ctx.headers_delayed ≡ true
    → AllInMemory s.chain
    → Delivers s (body_filter env s)
body_filter-Delivers env s at some_chain untriggered no_page d m =
    let r = filter_loop env 0 s.chain s in
    subst (Delivers s) (sym (body_filter-runs env s at some_chain untriggered)) (
      settle_flow-Delivers env s r (filter_loop-Kept env 0 s.chain s m d)
        (filter_loop-Ends env 0 s.chain s no_page))
