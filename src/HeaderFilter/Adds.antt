-- ===== src/HeaderFilter/Adds.antt =====
-- What a run of submissions does, by the headers alone.
use coraza_nginx.Common.{
  ◌≡◌, ◌⊎◌, ℤ, ngx_ok, ngx_error, Option, none, some, List, [], ◌∷◌, ◌++◌, append-nil, map, length,
  arith,
}
use coraza_nginx.Pack.{Header}
use coraza_nginx.Runtime.{Env, State, count, is_forward, is_process_response_headers}
use coraza_nginx.Headers.{to_int}
use coraza_nginx.Headers.Seen.{span, response_headers}
use coraza_nginx.HeaderFilter.Collect.{add_header}

-- What the engine reads of a header that is submitted by itself.
abbrev pub spanned : Header → Header
spanned h = record {
  name = span h.name (to_int (length h.name));
  value = span h.value (to_int (length h.value));
}

abbrev pub gathered : List Header → Option (List Header) → Option (List Header)
gathered hs none = none
gathered hs (some pairs) = some (pairs ++ hs)

abbrev pub direct : List Header → Option (List Header) → List Header
direct hs none = map spanned hs
direct hs (some pairs) = []

-- The headers are collected, or submitted, and nothing else has changed.
pub record Added (env : Env) (hs : List Header) (s t : State) : Type 0 where
  pub same_ctx : t.ctx ≡ record (s.ctx) { resp_hdr_collect = gathered hs s.ctx.resp_hdr_collect }
  pub seen :
      response_headers env t.trace
      ≡ response_headers env s.trace ++ direct hs s.ctx.resp_hdr_collect
  pub same_req : t.req ≡ s.req
  pub same_mcf : t.mcf ≡ s.mcf
  pub same_forwards : count is_forward t.trace ≡ count is_forward s.trace
  pub same_phases :
      count is_process_response_headers t.trace ≡ count is_process_response_headers s.trace

-- All went well, or NGX_ERROR with nothing sent to the client.
pub record Stopped (s : State) (r : ℤ × State) : Type 0 where
  pub is_error : r.0 ≡ ngx_error
  pub same_forwards : count is_forward r.1.trace ≡ count is_forward s.trace
  pub same_processed : r.1.ctx.processed ≡ s.ctx.processed

abbrev pub Adds : Env → List Header → State → ℤ × State → Type 0
Adds env hs s r = ((r.0 ≡ ngx_ok) × Added env hs s r.1) ⊎ Stopped s r

pub add_header-Adds :
    (env : Env) (h : Header) (s : State) → Adds env (h ∷ []) s (add_header env h s)
unfolding add_header
add_header-Adds env h s = ground (arith, append-nil (response_headers env s.trace))
