-- ===== src/HeaderFilter/Refused.antt =====
-- From the engine's intervention in phase 3 to the answer that the client gets
-- (src/ngx_http_coraza_header_filter.c and src/ngx_http_coraza_module.c).
use coraza_nginx.Common.{
  ◌≡◌, ◌⊎◌, ◌&&◌, Option, true, false, none, some, is_pos, is_num, ◌∷◌, if◌then◌else◌,
}
use coraza_nginx.Pack.{Bytes}
use coraza_nginx.Runtime.{
  Env, HeadersOut, Intervention, State, Trace, finalize_request, next_header_filter,
  clear_accept_ranges,
}
use coraza_nginx.Intervention.{interruption, is_redirect_status, safe_prefix, push_location}
use coraza_nginx.Intervention.Verdict.{fetched}
use coraza_nginx.Redirect.{cleared}
use coraza_nginx.BodyFilter.Stages.{has_location}
use coraza_nginx.HeaderFilter.Resolvers.{Head}
use coraza_nginx.HeaderFilter.Filter.{response_headers_phase}

-- The headers with the Location that the intervention asks for.
abbrev pub to_target : Option Bytes → HeadersOut → HeadersOut
to_target none o = o
to_target (some target) o = push_location true (safe_prefix target) o

abbrev pub located : Intervention → HeadersOut → HeadersOut
located it o = if is_redirect_status it.status then to_target it.target o else o

-- The engine reports an interruption of phase 3, and the poll gets this intervention, which denies;
-- memory is there.
pub record Denies (env : Env) (hd : Head) (it : Intervention) (s : State) : Type 0 where
  pub interrupts : is_num interruption (response_headers_phase env hd s).0 ≡ true
  pub holds : fetched env (response_headers_phase env hd s).1 ≡ some it
  pub has_status : is_pos it.status ≡ true
  pub is_denial : is_num 200 it.status ≡ false
  pub memory : (t : Trace) → env.allocates t ≡ true

-- The answer, with what was there before it and the headers that go with it.
abbrev pub Answers : Intervention → State → State → Trace → Type 0
Answers it s t rest =
    let o = located it s.req.out in
    let redirects = is_redirect_status it.status && has_location o.location in
    ((redirects ≡ true)
      × (t.trace ≡ next_header_filter ∷ clear_accept_ranges ∷ rest)
      × (t.req.out ≡ cleared it.status o)
      × (t.req.header_only ≡ true))
    ⊎ ((redirects ≡ false) × (t.trace ≡ finalize_request it.status ∷ rest) × (t.req.out ≡ o))
