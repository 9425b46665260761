-- ===== src/HeaderFilter/Inspected.antt =====
-- The header filter of src/ngx_http_coraza_header_filter.c: what it lets out, and what the engine
-- has seen by then.
use coraza_nginx.Common.{
  suc, ◌≡◌, refl, sym, ap, subst, ◌⊎◌, inl, inr, ℤ, Bool, true, false, ngx_ok, ngx_error, none,
  some, List, [], ◌∷◌, ◌++◌, Bool-cases, arith,
}
use coraza_nginx.Pack.{Header}
use coraza_nginx.Runtime.{
  Env, HeadersOut, State, M, count, is_forward, is_process_response_headers, array_create,
}
use coraza_nginx.Headers.Seen.{response_headers}
use coraza_nginx.Redirect.{forward_header}
use coraza_nginx.HeaderFilter.Collect.{and_then}
use coraza_nginx.HeaderFilter.Resolvers.{Head, headers_out}
use coraza_nginx.HeaderFilter.Filter.{
  has_conf, passes_on, is_held, collector, list_headers, submit_list, flush_collected,
  submit_headers, phase_and_decide, header_filter,
}
use coraza_nginx.HeaderFilter.Expected.{written, listed, expected}
use coraza_nginx.HeaderFilter.Adds.{Added, Adds}
use coraza_nginx.HeaderFilter.Submits.{Added-trans, list_headers-Adds}
use coraza_nginx.HeaderFilter.Resolved.{headers_out-Adds}
use coraza_nginx.HeaderFilter.Decided.{phase_and_decide-Outcome}
use coraza_nginx.HeaderFilter.Flushed.{
  EachFits, Submits, flush_collected-Submits, flush_collected-processed,
}

and_then-Submits :
    (env : Env) (xs hs : List Header) (m next : M ℤ) (s u : State)
    → Added env xs s u
    → Adds env hs u (m u)
    → (Added env (xs ++ hs) s (m u).1 → Submits env (xs ++ hs) s (next (m u).1))
    → Submits env (xs ++ hs) s (and_then m next u)
and_then-Submits env xs hs m next s u a (inl (o, b)) g =
    let same : and_then m next u ≡ next (m u).1 = ground (arith, o) in
    subst (Submits env (xs ++ hs) s) (sym same) (g (Added-trans env xs hs s u (m u).1 a b))
and_then-Submits env xs hs m next s u a (inr e) g = inr (ground (arith, e, a))

submit_list-Adds :
    (env : Env) (o : HeadersOut) (s : State)
    → s.req.out ≡ o
    → Adds env (listed o 0 o.headers) s (submit_list env s)
unfolding submit_list
submit_list-Adds env o s p =
    subst
      (λ x. Adds env (listed x 0 x.headers) s (list_headers env s.req.out 0 s.req.out.headers s)) p
      (list_headers-Adds env s.req.out 0 s.req.out.headers s)

submit_headers-Submits :
    (env : Env) (hd : Head) (s : State)
    → EachFits (expected hd s.req.out)
    → (s.ctx.resp_hdr_collect ≡ none) ⊎ (s.ctx.resp_hdr_collect ≡ some [])
    → Submits env (expected hd s.req.out) s (submit_headers env hd s)
unfolding submit_headers expected
submit_headers-Submits env hd s f c =
    let o = s.req.out in
    let m = headers_out env hd in
    let next = and_then (submit_list env) (flush_collected env) in
    elim (headers_out-Adds env hd o s refl)
      as (λ (_ : Adds env (written hd o) s (m s)).
        Submits env (written hd o ++ listed o 0 o.headers) s (and_then m next s)) [
          | inr e ↦ inr (ground (arith, e))
          | inl (r, a) ↦
              let u = (m s).1 in
              let same : and_then m next s ≡ next u = ground (arith, r) in
              subst (Submits env (written hd o ++ listed o 0 o.headers) s) (sym same) (
                and_then-Submits env (written hd o) (listed o 0 o.headers) (submit_list env)
                  (flush_collected env) s u a
                  (submit_list-Adds env o u (ap (λ r. r.out) a.same_req))
                  (flush_collected-Submits env (written hd o ++ listed o 0 o.headers) s
                    (submit_list env u).1 f c))
        ]

-- The connector is on for this request, its header has not been inspected, and the engine has not
-- denied it.
pub record IsFresh (s : State) : Type 0 where
  pub is_attached : s.attached ≡ true
  pub is_configured : has_conf s.mcf ≡ true
  pub not_triggered : s.ctx.intervention_triggered ≡ false
  pub not_processed : s.ctx.processed ≡ false

IsFresh-passes_on : (s : State) → IsFresh s → passes_on s ≡ false
unfolding passes_on
IsFresh-passes_on s f = rw (f.is_attached, f.is_configured, f.not_triggered, f.not_processed)

-- The state in which the submission starts.
armed : Env → State → State
armed env s = record s {
  trace = array_create ∷ s.trace;
  ctx = record (s.ctx) {
    processed = true;
    resp_hdr_collect = collector (env.allocates (array_create ∷ s.trace));
  };
}

header_filter-armed :
    (env : Env) (hd : Head) (s : State)
    → passes_on s ≡ false
    → header_filter env hd s
      ≡ and_then (submit_headers env hd) (phase_and_decide env hd) (armed env s)
unfolding header_filter armed
header_filter-armed env hd s f = rw f

collector-cases : (b : Bool) → (collector b ≡ none) ⊎ (collector b ≡ some [])
collector-cases true = inr refl
collector-cases false = inl refl

-- How a run on a fresh request ends.
abbrev pub Ran : Env → Head → State → ℤ × State → Type 0
Ran env hd s r =
    ((r.0 ≡ ngx_error) × (count is_forward r.1.trace ≡ count is_forward s.trace))
    ⊎ ((response_headers env r.1.trace ≡ response_headers env s.trace ++ expected hd s.req.out)
        × (count is_process_response_headers r.1.trace
            ≡ suc (count is_process_response_headers s.trace))
        × (((is_held hd s.mcf s.req ≡ true)
              × (r.0 ≡ ngx_ok)
              × (count is_forward r.1.trace ≡ count is_forward s.trace)
              × (r.1.ctx.headers_delayed ≡ true)
              × (r.1.ctx.pending_chain ≡ [])
              × (r.1.ctx.intervention_triggered ≡ false))
            ⊎ ((count is_forward r.1.trace ≡ suc (count is_forward s.trace))
                × (r.1.ctx.headers_delayed ≡ s.ctx.headers_delayed)
                × ((is_held hd s.mcf s.req ≡ false) ⊎ (r.1.ctx.intervention_triggered ≡ true)))))

-- On a request that is fresh, whose headers each have lengths that an `int` holds: either the
-- filter answers NGX_ERROR and nothing has gone to the client; or the engine has been given, after
-- what it had, exactly the headers that nginx is about to write (those of its own fields first,
-- then the live elements of the list that are not those fields' own, in order), phase 3 has run
-- once more, and either the header is held back (in a location that delays it, on a request and
-- response that it delays; then the answer is NGX_OK, nothing has gone to the client, and the
-- transaction is not marked as intervened upon), or exactly one thing has gone to the client, and
-- then the header was not one to hold back, or the transaction is marked.
pub header_filter-inspects :
    (env : Env) (hd : Head) (s : State)
    → IsFresh s
    → EachFits (expected hd s.req.out)
    → Ran env hd s (header_filter env hd s)
unfolding armed
header_filter-inspects env hd s f fits =
    let a = armed env s in
    let m = submit_headers env hd in
    let done = m a in
    subst (Ran env hd s) (sym (header_filter-armed env hd s (IsFresh-passes_on s f)))
      (elim (submit_headers-Submits env hd a fits
          (collector-cases (env.allocates (array_create ∷ s.trace))))
        as (λ (_ : Submits env (expected hd s.req.out) a (m a)).
          Ran env hd s (and_then m (phase_and_decide env hd) a)) [
            | inr e ↦ ground (arith, e)
            | inl (o, b) ↦
                let same : and_then m (phase_and_decide env hd) a
                    ≡ phase_and_decide env hd (m a).1 =
                  ground (arith, o) in
                subst (Ran env hd s) (sym same)
                  (ground (arith, b, f, phase_and_decide-Outcome env hd (m a).1))
          ])

submit_headers-processed :
    (env : Env) (hd : Head) (s : State)
    → (submit_headers env hd s).1.ctx.processed ≡ s.ctx.processed
unfolding submit_headers
submit_headers-processed env hd s =
    let t = (headers_out env hd s).1 in
    let u = (submit_list env t).1 in
    ground (
      arith,
      headers_out-Adds env hd s.req.out s refl,
      submit_list-Adds env t.req.out t refl,
      flush_collected-processed env u,
    )

run-processed :
    (env : Env) (hd : Head) (s : State)
    → passes_on s ≡ false
    → (header_filter env hd s).1.ctx.processed ≡ true
unfolding armed
run-processed env hd s f =
    let t = (submit_headers env hd (armed env s)).1 in
    rw (header_filter-armed env hd s f) (
      ground
        (arith, submit_headers-processed env hd (armed env s), phase_and_decide-Outcome env hd t))

passes_on_again : (env : Env) (hd : Head) (s : State) → passes_on (header_filter env hd s).1 ≡ true
unfolding passes_on header_filter forward_header
passes_on_again env hd s = elim (Bool-cases (passes_on s)) [
  | inl p ↦ rw p p
  | inr p ↦ ground (arith, run-processed env hd s p)
]

-- Whatever a first run has met, a second one for the same context (on the error response that nginx
-- makes of a denial, say) gives the engine nothing and passes the header on.
pub header_filter-again :
    (env : Env) (hd again : Head) (s : State)
    → header_filter env again (header_filter env hd s).1
      ≡ forward_header env (header_filter env hd s).1
unfolding header_filter
header_filter-again env hd again s = rw (passes_on_again env hd s)
