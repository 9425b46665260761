-- ===== src/Response.antt =====
-- The header filter and the body filter together (src/ngx_http_coraza_header_filter.c and
-- src/ngx_http_coraza_body_filter.c): a response whose headers are held back.
mod Examples
use coraza_nginx.Common.{
  ℕ, ◌≡◌, refl, sym, ap, subst, ◌∙◌, ◌⊎◌, inl, inr, ℤ, Bool, true, false, ngx_ok, List, [], ◌++◌,
  arith,
}
use coraza_nginx.Pack.{Bytes}
use coraza_nginx.Runtime.{Buf, Env, State, count, is_forward}
use coraza_nginx.HeaderFilter.Resolvers.{Head}
use coraza_nginx.HeaderFilter.Filter.{header_filter}
use coraza_nginx.HeaderFilter.Expected.{expected}
use coraza_nginx.HeaderFilter.Flushed.{EachFits}
use coraza_nginx.HeaderFilter.Inspected.{Ran, IsFresh, header_filter-inspects}
use coraza_nginx.BodyFilter.Filter.{is_empty, body_filter}
use coraza_nginx.BodyFilter.Still.{forwards}
use coraza_nginx.BodyFilter.Payload.{payload, AllInMemory}
use coraza_nginx.BodyFilter.Released.{Released, waits, sends, fails, denies, body_filter-Released}

-- The chain that nginx hands to the next call of the body filter.
abbrev pub hand : List Buf → State → State
hand bufs s = record s { chain = bufs }

-- The calls that nginx makes for one response: that of the header filter, which holds the header
-- back, and then calls of the body filter, each made while the header is still held, the context is
-- attached and no error page is served. The bytes are those of all the chains.
pub data Calls (env : Env) (hd : Head) (s : State) : Bytes → ℤ × State → Type 0 where
  held_back :
      (header_filter env hd s).0 ≡ ngx_ok
      → (header_filter env hd s).1.ctx.headers_delayed ≡ true
      → Calls env hd s [] (header_filter env hd s)
  body_call :
      {all : Bytes} {r : ℤ × State}
      → Calls env hd s all r
      → r.1.ctx.headers_delayed ≡ true
      → r.1.attached ≡ true
      → r.1.req.error_page ≡ false
      → (bufs : List Buf) → is_empty bufs ≡ false
      → AllInMemory bufs
      → Calls env hd s (all ++ payload bufs) (body_filter env (hand bufs r.1))

held_back-Released :
    (env : Env) (hd : Head) (s : State) (r : ℤ × State)
    → s.ctx.headers_delayed ≡ false
    → Ran env hd s r
    → r.0 ≡ ngx_ok
    → r.1.ctx.headers_delayed ≡ true
    → Released (forwards s) [] r
unfolding payload
held_back-Released env hd s r fresh (inl (e, f)) ok d = absurd (ground (arith, e, ok))
held_back-Released env hd s r fresh (inr (seen, phases, inl (held, o, f, delayed, empty, u))) ok d =
    waits o d u f (ap payload empty)
held_back-Released env hd s r fresh (inr (seen, phases, inr (f, same, why))) ok d =
    absurd (ground (arith, same, fresh, d))

-- A call of the body filter after those before it.
body_call-Released :
    (env : Env) (n : ℕ) (all : Bytes) (r : ℤ × State) (bufs : List Buf)
    → Released n all r
    → r.1.ctx.headers_delayed ≡ true
    → r.1.attached ≡ true
    → r.1.req.error_page ≡ false
    → is_empty bufs ≡ false
    → AllInMemory bufs
    → Released n (all ++ payload bufs) (body_filter env (hand bufs r.1))
body_call-Released env n all r bufs (waits o d u f k) held at page some_chain m =
    let run = body_filter-Released env (hand bufs r.1) at some_chain u page held m in
    let next = body_filter env (hand bufs r.1) in
    subst (λ x. Released x (all ++ payload bufs) next) f
      (subst (λ x. Released (forwards r.1) (x ++ payload bufs) next) k run)
body_call-Released env n all r bufs (sends h rest d t c p) held at page some_chain m =
    absurd (ground (arith, d, held))
body_call-Released env n all r bufs (fails rest o d t c) held at page some_chain m =
    absurd (ground (arith, d, held))
body_call-Released env n all r bufs (denies u d l f) held at page some_chain m =
    absurd (ground (arith, d, held))

-- A response whose header is held back is stored and forwarded as one. After the call of the header
-- filter and any calls of the body filter with chains in memory, each made while the header is still
-- held: nothing has gone to the client and all of the chains' bytes are held, in order; or the
-- header has gone out, and behind it all of these bytes in one chain; or the header could not be
-- sent, and no body was; or one answer has gone out in place of the response, with no byte of it.
pub Calls-Released :
    {env : Env} {hd : Head} {s : State} {all : Bytes} {r : ℤ × State}
    → IsFresh s
    → s.ctx.headers_delayed ≡ false
    → EachFits (expected hd s.req.out)
    → Calls env hd s all r
    → Released (forwards s) all r
Calls-Released {env = env} {hd = hd} {s = s} f d fits (held_back ok h) =
    held_back-Released env hd s (header_filter env hd s) d (header_filter-inspects env hd s f fits)
      ok h
Calls-Released {env = env} {s = s} f d fits
      (body_call {all = all} {r = r} calls h at page bufs n m) =
    body_call-Released env (forwards s) all r bufs (Calls-Released f d fits calls) h at page n m
