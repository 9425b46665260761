-- ===== src/HeaderFilter/Resolved.antt =====
-- The resolvers (src/ngx_http_coraza_header_filter.c) against the headers that nginx writes.
use coraza_nginx.Common.{
  ◌≡◌, ap, subst, ◌∙◌, ℤ, pos, negsuc, Bool, true, false, ngx_ok, List, [], ◌∷◌, ◌++◌,
  if◌then◌else◌, arith,
}
use coraza_nginx.Pack.{Header}
use coraza_nginx.Runtime.{Env, HeadersOut, State, M}
use coraza_nginx.HeaderFilter.Name
use coraza_nginx.HeaderFilter.Value
use coraza_nginx.HeaderFilter.Collect.{add_header, and_then}
use coraza_nginx.HeaderFilter.Resolvers.{
  Head, keep_alive_header, connection_header, length_header, resolv_header_server,
  resolv_header_date, resolv_header_content_length, resolv_header_content_type,
  resolv_header_last_modified, resolv_header_connection, resolv_header_transfer_encoding,
  resolv_header_vary, headers_out,
}
use coraza_nginx.HeaderFilter.Expected.{
  when, server, date, content_length, content_type, last_modified, connection, transfer_encoding,
  vary, written,
}
use coraza_nginx.HeaderFilter.Adds.{Adds, add_header-Adds}
use coraza_nginx.HeaderFilter.Submits.{nothing-Adds, and_then-Adds}

server-Adds :
    (env : Env) (hd : Head) (s : State)
    → Adds env (server hd s.req.out) s (resolv_header_server env hd s)
unfolding resolv_header_server
server-Adds env hd s = add_header-Adds env _ s

date-Adds :
    (env : Env) (hd : Head) (s : State)
    → Adds env (date hd s.req.out) s (resolv_header_date env hd s)
unfolding resolv_header_date
date-Adds env hd s = add_header-Adds env _ s

length-Adds :
    (env : Env) (hd : Head) (n : ℤ) (s : State)
    → Adds env (content_length hd n) s (length_header env hd n s)
unfolding length_header
length-Adds env hd (pos n) s = add_header-Adds env _ s
length-Adds env hd (negsuc n) s = nothing-Adds env s

content_length-Adds :
    (env : Env) (hd : Head) (s : State)
    → Adds env
        (content_length hd s.req.out.content_length_n)
        s
        (resolv_header_content_length env hd s)
unfolding resolv_header_content_length
content_length-Adds env hd s = length-Adds env hd s.req.out.content_length_n s

-- A header or nothing, by a test.
when-Adds :
    (env : Env) (b : Bool) (h : Header) (s : State)
    → Adds env (when b (h ∷ [])) s (if b then add_header env h s else (ngx_ok, s))
when-Adds env true h s = add_header-Adds env h s
when-Adds env false h s = nothing-Adds env s

content_type-Adds :
    (env : Env) (hd : Head) (s : State)
    → Adds env (content_type s.req.out) s (resolv_header_content_type env hd s)
unfolding resolv_header_content_type
content_type-Adds env hd s =
    let h : Header = record { name = Name.content_type; value = s.req.out.content_type } in
    ground (arith, nothing-Adds env s, add_header-Adds env h s)

last_modified-Adds :
    (env : Env) (hd : Head) (s : State)
    → Adds env (last_modified hd s.req.out) s (resolv_header_last_modified env hd s)
unfolding resolv_header_last_modified
last_modified-Adds env hd s =
    let h : Header = record {
      name = Name.last_modified;
      value = hd.http_time s.req.out.last_modified_time;
    } in
    ground (arith, nothing-Adds env s, add_header-Adds env h s)

-- "Keep-Alive" and "Connection".
keep_alive-Adds :
    (env : Env) (hd : Head) (s : State)
    → Adds env (keep_alive_header hd ∷ connection_header Value.keep_alive ∷ []) s (
        and_then
          (add_header env (keep_alive_header hd))
          (add_header env (connection_header Value.keep_alive))
          s)
keep_alive-Adds env hd s =
    let first = add_header env (keep_alive_header hd) in
    let second = add_header env (connection_header Value.keep_alive) in
    and_then-Adds env (keep_alive_header hd ∷ []) (connection_header Value.keep_alive ∷ []) first
      second s (add_header-Adds env (keep_alive_header hd) s)
      (λ a. add_header-Adds env (connection_header Value.keep_alive) (first s).1)

connection-Adds :
    (env : Env) (hd : Head) (s : State)
    → Adds env (connection hd s.req.out) s (resolv_header_connection env hd s)
unfolding resolv_header_connection
connection-Adds env hd s = ground (
  arith,
  nothing-Adds env s,
  add_header-Adds env (connection_header Value.upgrade) s,
  add_header-Adds env (connection_header Value.keep_alive) s,
  add_header-Adds env (connection_header Value.close) s,
  keep_alive-Adds env hd s,
  add_header-Adds env (keep_alive_header hd) s,
)

transfer_encoding-Adds :
    (env : Env) (hd : Head) (s : State)
    → Adds env (transfer_encoding hd) s (resolv_header_transfer_encoding env hd s)
unfolding resolv_header_transfer_encoding
transfer_encoding-Adds env hd s = when-Adds env hd.chunked _ s

vary-Adds : (env : Env) (hd : Head) (s : State) → Adds env (vary hd) s (resolv_header_vary env hd s)
unfolding resolv_header_vary
vary-Adds env hd s = when-Adds env _ _ s

-- What a step adds from every state with these response headers.
abbrev Writes : Env → HeadersOut → List Header → M ℤ → Type 0
Writes env o hs m = (t : State) → t.req.out ≡ o → Adds env hs t (m t)

then-Writes :
    {env : Env} {o : HeadersOut} (xs ys : List Header) (m next : M ℤ)
    → Writes env o xs m
    → Writes env o ys next
    → Writes env o (xs ++ ys) (and_then m next)
then-Writes {env = env} {o = o} xs ys m next f g s p =
    and_then-Adds env xs ys m next s (f s p) (λ a. g (m s).1 (ap (λ r. r.out) a.same_req ∙ p))

-- A resolver's lemma at such a state.
resolver-Writes :
    {env : Env} {o : HeadersOut} (hs : HeadersOut → List Header) (m : M ℤ)
    → ((t : State) → Adds env (hs t.req.out) t (m t))
    → Writes env o (hs o) m
resolver-Writes {env = env} {o = o} hs m f t p = subst (λ x. Adds env (hs x) t (m t)) p (f t)

pub headers_out-Adds :
    (env : Env) (hd : Head) (o : HeadersOut) (s : State)
    → s.req.out ≡ o
    → Adds env (written hd o) s (headers_out env hd s)
unfolding headers_out written
headers_out-Adds env hd o =
    let m7 = and_then (resolv_header_transfer_encoding env hd) (resolv_header_vary env hd) in
    let m6 = and_then (resolv_header_connection env hd) m7 in
    let m5 = and_then (resolv_header_last_modified env hd) m6 in
    let m4 = and_then (resolv_header_content_type env hd) m5 in
    let m3 = and_then (resolv_header_content_length env hd) m4 in
    let m2 = and_then (resolv_header_date env hd) m3 in
    let h7 = transfer_encoding hd ++ vary hd in
    let h6 = connection hd o ++ h7 in
    let h5 = last_modified hd o ++ h6 in
    let h4 = content_type o ++ h5 in
    let h3 = content_length hd o.content_length_n ++ h4 in
    let h2 = date hd o ++ h3 in
    let w7 : Writes env o h7 m7 =
      then-Writes (transfer_encoding hd) (vary hd) (resolv_header_transfer_encoding env hd)
        (resolv_header_vary env hd) (λ t p. transfer_encoding-Adds env hd t)
        (λ t p. vary-Adds env hd t) in
    let w6 : Writes env o h6 m6 =
      then-Writes (connection hd o) h7 (resolv_header_connection env hd) m7
        (resolver-Writes (connection hd) (resolv_header_connection env hd) (connection-Adds env hd))
        w7 in
    let w5 : Writes env o h5 m5 =
      then-Writes (last_modified hd o) h6 (resolv_header_last_modified env hd) m6
        (resolver-Writes (last_modified hd) (resolv_header_last_modified env hd)
          (last_modified-Adds env hd))
        w6 in
    let w4 : Writes env o h4 m4 =
      then-Writes (content_type o) h5 (resolv_header_content_type env hd) m5
        (resolver-Writes content_type (resolv_header_content_type env hd)
          (content_type-Adds env hd))
        w5 in
    let w3 : Writes env o h3 m3 =
      then-Writes (content_length hd o.content_length_n) h4 (resolv_header_content_length env hd) m4
        (resolver-Writes (λ x. content_length hd x.content_length_n)
          (resolv_header_content_length env hd) (content_length-Adds env hd))
        w4 in
    let w2 : Writes env o h2 m2 =
      then-Writes (date hd o) h3 (resolv_header_date env hd) m3
        (resolver-Writes (date hd) (resolv_header_date env hd) (date-Adds env hd)) w3 in
    then-Writes (server hd o) h2 (resolv_header_server env hd) m2
      (resolver-Writes (server hd) (resolv_header_server env hd) (server-Adds env hd)) w2
