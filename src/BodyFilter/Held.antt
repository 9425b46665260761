-- ===== src/BodyFilter/Held.antt =====
-- What a call of the filter (src/ngx_http_coraza_body_filter.c) sends while the headers are held.
use coraza_nginx.Common.{
  ◌≤◌, ◌<◌, ◌%◌, ◌≡◌, ◌⊎◌, ◌∙◌, ◌++◌, ap, refl, ℤ, Bool, true, false, Bool-cases, inl, inr, eq_code,
  ngx_ok, ngx_error, ltb, none, some, List, [], ◌∷◌, if◌then◌else◌, subst, sym, arith,
}
use coraza_nginx.Runtime.{
  Buf, Env, State, Trace, count, is_forward, next_body_filter, next_header_filter,
}
use coraza_nginx.BodyFilter.Stages.{Flow}
use coraza_nginx.BodyFilter.Filter.{
  max_delayed_body, filter_loop, is_request_processed, flush_pending, after_loop, settle_flow,
  filter_chain, is_empty, body_filter,
}
use coraza_nginx.BodyFilter.Still.{forwards}
use coraza_nginx.BodyFilter.File.{size_mod}
use coraza_nginx.BodyFilter.Copies.{Copies, held_size, Counted, Holds, filter_loop-Holds}
use coraza_nginx.BodyFilter.Ends.{Same, Replaced, Ends, filter_loop-Ends}

-- How a call of the filter ends that finds the headers held back.
pub data Outcome (env : Env) (s : State) (r : ℤ × State) : Type 0 where
  -- still holding: no last buffer yet, nothing sent, the chain's buffers held behind those before,
  -- and at most the cap of bytes held
  holds :
      (xs : List Buf)
      → r.0 ≡ ngx_ok
      → r.1.ctx.headers_delayed ≡ true
      → is_request_processed false s.chain ≡ false
      → forwards r.1 ≡ forwards s
      → Copies env s.chain xs
      → r.1.ctx.pending_chain ≡ s.ctx.pending_chain ++ xs
      → Counted r.1.ctx
      → held_size (s.ctx.pending_chain ++ xs) % size_mod ≤ max_delayed_body
      → Outcome env s r
  -- the last buffer has come or the bytes are over the cap: the headers, then the held chain and
  -- behind it the chain's buffers, and the hold is over
  flushed :
      (xs : List Buf) (rest : Trace)
      → (is_request_processed false s.chain ≡ true)
        ⊎ (max_delayed_body < held_size (s.ctx.pending_chain ++ xs) % size_mod)
      → Copies env s.chain xs
      → r.1.trace ≡ next_body_filter (s.ctx.pending_chain ++ xs) ∷ next_header_filter ∷ rest
      → count is_forward rest ≡ forwards s
      → r.1.ctx.headers_delayed ≡ false
      → r.1.ctx.pending_chain ≡ []
      → Outcome env s r
  -- the headers could not be sent, and so no body was
  header_failed :
      (rest : Trace)
      → r.0 ≡ ngx_error
      → r.1.trace ≡ next_header_filter ∷ rest
      → count is_forward rest ≡ forwards s
      → Outcome env s r
  -- an error page or a redirect in place of the response
  replaces : Replaced s r.1 → Outcome env s r

flush_pending-Outcome :
    (env : Env) (s t : State) (xs : List Buf)
    → forwards t ≡ forwards s
    → (is_request_processed false s.chain ≡ true)
      ⊎ (max_delayed_body < held_size (s.ctx.pending_chain ++ xs) % size_mod)
    → Copies env s.chain xs
    → t.ctx.pending_chain ≡ s.ctx.pending_chain ++ xs
    → Outcome env s (flush_pending env t)
unfolding flush_pending
flush_pending-Outcome env s t xs e why c p =
    elim (Bool-cases (eq_code ngx_error (env.results (next_header_filter ∷ t.trace)))) [
      | inl bad ↦ header_failed t.trace (ground arith) (ground arith) e
      | inr fine ↦
          flushed xs t.trace why c
            (ground arith ∙ ap (λ y. next_body_filter y ∷ next_header_filter ∷ t.trace) p) e
            (ground arith) (ground arith)
    ]

pub choose :
    (P : ℤ × State → Type 0) (c : Bool) (p q : ℤ × State)
    → (c ≡ true → P p)
    → (c ≡ false → P q)
    → P (if c then p else q)
choose P true p q f g = f refl
choose P false p q f g = g refl

after_loop-Outcome :
    (env : Env) (s t : State)
    → Same s t
    → s.ctx.headers_delayed ≡ true
    → Holds env s.chain s (none, t)
    → Outcome env s (after_loop env s.chain t)
unfolding after_loop
after_loop-Outcome env s t same d (xs, c, p, k) =
    let bytes : t.ctx.pending_bytes ≡ held_size (s.ctx.pending_chain ++ xs) % size_mod =
      k ∙ ap (λ y. held_size y % size_mod) p in
    choose (Outcome env s) t.ctx.headers_delayed _ _
      (λ on.
        choose (Outcome env s) (is_request_processed false s.chain) _ _
          (λ last. flush_pending-Outcome env s t xs same.same_forwards (inl last) c p)
          (λ more.
            choose (Outcome env s) (ltb max_delayed_body t.ctx.pending_bytes) _ _
              (λ over.
                flush_pending-Outcome env s t xs same.same_forwards (inr (ground (arith, bytes))) c
                  p)
              (λ under.
                holds xs refl on more same.same_forwards c p k (ground (arith, bytes, under)))))
      (λ off. absurd (ground (arith, same)))

settle_flow-Outcome :
    (env : Env) (s : State) (r : Flow × State)
    → s.ctx.headers_delayed ≡ true
    → Ends s r
    → Holds env s.chain s r
    → Outcome env s (settle_flow env s.chain r.0 r.1)
unfolding settle_flow
settle_flow-Outcome env s (none, t) d e h = after_loop-Outcome env s t e d h
settle_flow-Outcome env s (some rc, t) d e h = replaces e

pub body_filter-runs :
    (env : Env) (s : State)
    → s.attached ≡ true
    → is_empty s.chain ≡ false
    → s.ctx.intervention_triggered ≡ false
    → body_filter env s
      ≡ settle_flow env s.chain (filter_loop env 0 s.chain s).0 (filter_loop env 0 s.chain s).1
unfolding body_filter filter_chain
body_filter-runs env s at some_chain untriggered = ground arith

-- Where the headers are held back, nothing was refused, no error page is being served and the counter
-- has the size of the held chain, a call of the filter with a chain ends in one of four ways. It goes on holding: nothing is sent, no last buffer has come, a
-- stand-in for each buffer of the chain is held behind what was held, in order, the counter has the
-- size of all, and that is at most the cap. Or, as the last buffer has come or the size is over the
-- cap, it sends the held headers and then all of this in one chain, once each and in that order. Or
-- it fails to send the headers and sends no body. Or it replaces the response by one answer, with
-- the flag armed and no body sent. A stand-in is the last buffer itself, a lasting file's range, or a
-- copy of the bytes as they are read; sizes are those of `size_t`, a last buffer left out.
pub body_filter-Outcome :
    (env : Env) (s : State)
    → s.attached ≡ true
    → is_empty s.chain ≡ false
    → s.ctx.intervention_triggered ≡ false
    → s.req.error_page ≡ false
    → s.ctx.headers_delayed ≡ true
    → Counted s.ctx
    → Outcome env s (body_filter env s)
body_filter-Outcome env s at some_chain untriggered no_page d k =
    subst (Outcome env s) (sym (body_filter-runs env s at some_chain untriggered)) (
      settle_flow-Outcome env s (filter_loop env 0 s.chain s) d
        (filter_loop-Ends env 0 s.chain s no_page) (filter_loop-Holds env 0 s.chain s d k))
