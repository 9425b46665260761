-- ===== src/HeaderFilter/Submits.antt =====
-- The two passes (src/ngx_http_coraza_header_filter.c) against the expected list.
use coraza_nginx.Common.{
  ℕ, ◌+◌, ◌≡◌, refl, sym, ap, subst, ◌∙◌, inl, inr, ℤ, ngx_ok, Option, none, some, List, [], ◌∷◌,
  ◌++◌, append_assoc, append-nil, map, map-append, arith,
}
use coraza_nginx.Pack.{Header}
use coraza_nginx.Runtime.{Elt, Env, HeadersOut, State, M}
use coraza_nginx.Headers.Seen.{response_headers}
use coraza_nginx.HeaderFilter.Collect.{add_header, and_then}
use coraza_nginx.Headers.{header_of}
use coraza_nginx.HeaderFilter.Filter.{list_headers, replay}
use coraza_nginx.HeaderFilter.Expected.{listed}
use coraza_nginx.HeaderFilter.Adds.{spanned, gathered, direct, Added, Adds, add_header-Adds}

gathered-append :
    (xs ys : List Header) (c : Option (List Header))
    → gathered ys (gathered xs c) ≡ gathered (xs ++ ys) c
gathered-append xs ys none = refl
gathered-append xs ys (some pairs) = ap some (append_assoc pairs xs ys)

direct-append :
    (xs ys : List Header) (c : Option (List Header)) (seen : List Header)
    → (seen ++ direct xs c) ++ direct ys (gathered xs c) ≡ seen ++ direct (xs ++ ys) c
direct-append xs ys none seen =
    append_assoc seen (map spanned xs) (map spanned ys)
    ∙ ap (◌++◌ seen) (sym (map-append spanned xs ys))
direct-append xs ys (some pairs) seen = append-nil (seen ++ [])

pub Added-trans :
    (env : Env) (xs ys : List Header) (s t u : State)
    → Added env xs s t
    → Added env ys t u
    → Added env (xs ++ ys) s u
Added-trans env xs ys s t u a b =
    let c = s.ctx.resp_hdr_collect in
    ground (arith, gathered-append xs ys c, direct-append xs ys c (response_headers env s.trace))

gathered-nil : (c : Option (List Header)) → gathered [] c ≡ c
gathered-nil none = refl
gathered-nil (some pairs) = ap some (append-nil pairs)

direct-nil : (c : Option (List Header)) (seen : List Header) → seen ++ direct [] c ≡ seen
direct-nil none seen = append-nil seen
direct-nil (some pairs) seen = append-nil seen

pub nothing-Adds : (env : Env) (s : State) → Adds env [] s (ngx_ok, s)
nothing-Adds env s =
    let c = s.ctx.resp_hdr_collect in
    ground (arith, gathered-nil c, direct-nil c (response_headers env s.trace))

Adds-trans :
    (env : Env) (xs ys : List Header) (s t : State) (r : ℤ × State)
    → Added env xs s t
    → Adds env ys t r
    → Adds env (xs ++ ys) s r
Adds-trans env xs ys s t r a (inl (o, b)) = inl (o, Added-trans env xs ys s t r.1 a b)
Adds-trans env xs ys s t r a (inr e) = inr (ground (arith, e, a))

pub and_then-Adds :
    (env : Env) (xs ys : List Header) (m next : M ℤ) (s : State)
    → Adds env xs s (m s)
    → (Added env xs s (m s).1 → Adds env ys (m s).1 (next (m s).1))
    → Adds env (xs ++ ys) s (and_then m next s)
and_then-Adds env xs ys m next s (inl (o, a)) h =
    let t = (m s).1 in
    let same : and_then m next s ≡ next t = ground (arith, o) in
    subst (Adds env (xs ++ ys) s) (sym same) (Adds-trans env xs ys s t (next t) a (h a))
and_then-Adds env xs ys m next s (inr e) h = inr (ground (arith, e))

pub list_headers-Adds :
    (env : Env) (o : HeadersOut) (i : ℕ) (es : List Elt) (s : State)
    → Adds env (listed o i es) s (list_headers env o i es s)
unfolding list_headers listed
list_headers-Adds env o i [] s = nothing-Adds env s
list_headers-Adds env o i (e ∷ es) s =
    let rest = list_headers env o (i + 1) es in
    ground (
      arith,
      list_headers-Adds env o (i + 1) es s,
      and_then-Adds env (header_of e ∷ []) (listed o (i + 1) es) (add_header env (header_of e)) rest
          s (add_header-Adds env (header_of e) s)
          (λ a. list_headers-Adds env o (i + 1) es (add_header env (header_of e) s).1),
    )

pub replay-Adds : (env : Env) (hs : List Header) (s : State) → Adds env hs s (replay env hs s)
unfolding replay
replay-Adds env [] s = nothing-Adds env s
replay-Adds env (h ∷ hs) s =
    and_then-Adds env (h ∷ []) hs (add_header env h) (replay env hs) s (add_header-Adds env h s)
      (λ a. replay-Adds env hs (add_header env h s).1)
