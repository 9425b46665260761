-- ===== src/BodyFilter/Released.antt =====
-- One call of the filter (src/ngx_http_coraza_body_filter.c) while the headers are held, by what the
-- client gets of the response.
use coraza_nginx.Common.{
  ℕ, ◌≡◌, refl, ℤ, true, false, Bool-cases, inl, inr, eq_code, ngx_ok, ngx_error, ltb, none, some,
  List, ◌∷◌, ◌++◌, subst, sym, ◌∙◌, arith,
}
use coraza_nginx.Pack.{Bytes}
use coraza_nginx.Runtime.{
  Buf, Env, State, Trace, count, is_forward, next_body_filter, next_header_filter,
}
use coraza_nginx.BodyFilter.Stages.{Flow}
use coraza_nginx.BodyFilter.Filter.{
  max_delayed_body, filter_loop, is_request_processed, flush_pending, after_loop, settle_flow,
  is_empty, body_filter,
}
use coraza_nginx.BodyFilter.Still.{forwards}
use coraza_nginx.BodyFilter.Ends.{Answered, earlier, Ends, filter_loop-Ends}
use coraza_nginx.BodyFilter.Held.{choose, body_filter-runs}
use coraza_nginx.BodyFilter.Payload.{payload, AllInMemory}
use coraza_nginx.BodyFilter.Delivery.{Kept, filter_loop-Kept}

-- The whole response's bytes so far are `all`, and the client had been sent `sent` things.
pub data Released (sent : ℕ) (all : Bytes) (r : ℤ × State) : Type 0 where
  -- held on
  waits :
      r.0 ≡ ngx_ok
      → r.1.ctx.headers_delayed ≡ true
      → r.1.ctx.intervention_triggered ≡ false
      → forwards r.1 ≡ sent
      → payload r.1.ctx.pending_chain ≡ all
      → Released sent all r
  -- the headers, and then all of the bytes
  sends :
      (held : List Buf) (rest : Trace)
      → r.1.ctx.headers_delayed ≡ false
      → r.1.trace ≡ next_body_filter held ∷ next_header_filter ∷ rest
      → count is_forward rest ≡ sent
      → payload held ≡ all
      → Released sent all r
  -- the headers could not be sent
  fails :
      (rest : Trace)
      → r.0 ≡ ngx_error
      → r.1.ctx.headers_delayed ≡ false
      → r.1.trace ≡ next_header_filter ∷ rest
      → count is_forward rest ≡ sent
      → Released sent all r
  -- one answer without a body, in place of the response and with nothing before it
  denies :
      r.1.ctx.intervention_triggered ≡ true
      → r.1.ctx.headers_delayed ≡ false
      → Answered r.1
      → count is_forward (earlier r.1.trace) ≡ sent
      → Released sent all r

flush_pending-Released :
    (env : Env) (all : Bytes) (t : State)
    → payload t.ctx.pending_chain ≡ all
    → Released (forwards t) all (flush_pending env t)
unfolding flush_pending
flush_pending-Released env all t k =
    elim (Bool-cases (eq_code ngx_error (env.results (next_header_filter ∷ t.trace)))) [
      | inl bad ↦ fails t.trace (ground arith) (ground arith) (ground arith) refl
      | inr fine ↦ sends t.ctx.pending_chain t.trace (ground arith) (ground arith) refl k
    ]

after_loop-Released :
    (env : Env) (bufs : List Buf) (all : Bytes) (t : State)
    → t.ctx.headers_delayed ≡ true
    → t.ctx.intervention_triggered ≡ false
    → payload t.ctx.pending_chain ≡ all
    → Released (forwards t) all (after_loop env bufs t)
unfolding after_loop
after_loop-Released env bufs all t d u k =
    choose (Released (forwards t) all) t.ctx.headers_delayed _ _
      (λ on.
        choose (Released (forwards t) all) (is_request_processed false bufs) _ _
          (λ last. flush_pending-Released env all t k)
          (λ more.
            choose (Released (forwards t) all) (ltb max_delayed_body t.ctx.pending_bytes) _ _
              (λ over. flush_pending-Released env all t k) (λ under. waits refl d u refl k)))
      (λ off. absurd (ground arith))

settle_flow-Released :
    (env : Env) (s : State) (r : Flow × State)
    → s.ctx.intervention_triggered ≡ false
    → Kept (payload s.chain) s r
    → Ends s r
    → Released
        (forwards s)
        (payload s.ctx.pending_chain ++ payload s.chain)
        (settle_flow env s.chain r.0 r.1)
unfolding settle_flow
settle_flow-Released env s (none, t) u k e =
    let all = payload s.ctx.pending_chain ++ payload s.chain in
    subst (λ n. Released n all (after_loop env s.chain t)) e.same_forwards
      (after_loop-Released env s.chain all t k.1 (e.same_triggered ∙ u) k.0)
settle_flow-Released env s (some rc, t) u k e = denies e.armed e.released e.answered e.one_answer

pub body_filter-Released :
    (env : Env) (s : State)
    → s.attached ≡ true
    → is_empty s.chain ≡ false
    → s.ctx.intervention_triggered ≡ false
    → s.req.error_page ≡ false
    → s.ctx.headers_delayed ≡ true
    → AllInMemory s.chain
    → Released (forwards s) (payload s.ctx.pending_chain ++ payload s.chain) (body_filter env s)
body_filter-Released env s at some_chain untriggered no_page d m =
    let r = filter_loop env 0 s.chain s in
    let all = payload s.ctx.pending_chain ++ payload s.chain in
    subst (Released (forwards s) all) (sym (body_filter-runs env s at some_chain untriggered)) (
      settle_flow-Released env s r untriggered (filter_loop-Kept env 0 s.chain s m d)
        (filter_loop-Ends env 0 s.chain s no_page))
