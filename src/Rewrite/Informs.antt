-- ===== src/Rewrite/Informs.antt =====
-- The rewrite handler (src/ngx_http_coraza_rewrite.c): what the engine knows when it runs phase 1,
-- and how the request goes on.
use coraza_nginx.Common.{
  ℕ, suc, ◌+◌, ◌<◌, ◌≡◌, sym, ap, subst, ◌∙◌, ◌⊎◌, inl, inr, ℤ, Bool, true, false, is_pos, none,
  some, ◌∷◌, ◌++◌, length, arith,
}
use coraza_nginx.Pack.{Bytes}
use coraza_nginx.Runtime.{
  Env, State, count, is_forward, is_process_request_headers, log_call, pnalloc, local_sockaddr,
}
use coraza_nginx.Headers.Seen.{request_headers, refusals}
use coraza_nginx.Logging.{is_enabled}
use coraza_nginx.Transaction.{Wafs, create_ctx, open_transaction, adopt, keep_id}
use coraza_nginx.Rewrite.{
  Incoming, live, to_char, addr_to_char, with_text, add_request_headers_in, request_headers_phase,
  headers_and_phase, submit_uri, submit_connection, rewrite_handler,
}
use coraza_nginx.Rewrite.Given.{
  connection_seen, uri_seen, str_to_char-cases, address, connection_of, uri_of, before_phase,
  Informed,
}
use coraza_nginx.Rewrite.Told.{Told, add_request_headers_in-Told}
use coraza_nginx.Rewrite.Phase1.{Decided, Phase1, request_headers_phase-Phase1}

-- How the handler ends from a point on.
pub record Ends (env : Env) (inc : Incoming) (s : State) (r : ℤ × State) : Type 0 where
  pub forwards : count is_forward r.1.trace ≡ count is_forward s.trace
  pub how :
      (Informed env inc s r.1 × Decided r)
      ⊎ ((is_pos r.0 ≡ true)
          × (count is_process_request_headers r.1.trace ≡ count is_process_request_headers s.trace))

-- The engine knows the connection and the URI, and has run no phase since `s`.
record Prepared (env : Env) (inc : Incoming) (s t : State) : Type 0 where
  pub headers : request_headers env t.trace ≡ request_headers env s.trace
  pub refused : refusals env t.trace ≡ refusals env s.trace
  pub connection : connection_seen t.trace ≡ some (connection_of inc)
  pub uri : uri_seen t.trace ≡ some (uri_of inc)
  pub phases : count is_process_request_headers t.trace ≡ count is_process_request_headers s.trace
  pub forwards : count is_forward t.trace ≡ count is_forward s.trace

headers-before :
    (env : Env) (inc : Incoming) (s t u v : State)
    → Prepared env inc s t
    → Told env (live inc.headers) t u
    → before_phase v.trace ≡ u.trace
    → (request_headers env (before_phase v.trace) ≡ request_headers env s.trace ++ live inc.headers)
      ⊎ (refusals env s.trace < refusals env (before_phase v.trace))
headers-before env inc s t u v p told b = elim told.headers [
  | inl e ↦ inl (ap (request_headers env) b ∙ e ∙ ap (λ hs. hs ++ live inc.headers) p.headers)
  | inr l ↦ let same = ap (refusals env) b in inr (omega (arith, l, p.refused, same))
]

Phase1-Ends :
    (env : Env) (inc : Incoming) (s t u : State) (r : ℤ × State)
    → Prepared env inc s t
    → Told env (live inc.headers) t u
    → Phase1 u r
    → Ends env inc s r
Phase1-Ends env inc s t u r p told run =
    let informed : Informed env inc s r.1 = record {
      phases = run.phases ∙ ap suc (told.phases ∙ p.phases);
      connection = ap connection_seen run.before ∙ told.connection ∙ p.connection;
      uri = ap uri_seen run.before ∙ told.uri ∙ p.uri;
      headers = headers-before env inc s t u r.1 p told run.before;
    } in
    record {
      forwards = run.forwards ∙ told.forwards ∙ p.forwards;
      how = inl (informed, run.decided);
    }

headers_and_phase-Ends :
    (env : Env) (inc : Incoming) (s t : State)
    → Prepared env inc s t
    → Ends env inc s (headers_and_phase env inc.headers t)
unfolding headers_and_phase
headers_and_phase-Ends env inc s t p =
    let m = add_request_headers_in env inc.headers t in
    elim (add_request_headers_in-Told env inc.headers t) [
      | inl (o, told) ↦
          let same : headers_and_phase env inc.headers t ≡ request_headers_phase env m.1 =
            ground (arith, o) in
          subst (Ends env inc s) (sym same) (
            Phase1-Ends env inc s t m.1 (request_headers_phase env m.1) p told
              (request_headers_phase-Phase1 env m.1))
      | inr e ↦
          let same : headers_and_phase env inc.headers t ≡ m = ground (arith, e) in
          subst (Ends env inc s) (sym same) (ground (arith, e, p))
    ]

-- The engine knows the connection, and has run no phase since `s`.
record Connected (env : Env) (inc : Incoming) (s t : State) : Type 0 where
  pub headers : request_headers env t.trace ≡ request_headers env s.trace
  pub refused : refusals env t.trace ≡ refusals env s.trace
  pub connection : connection_seen t.trace ≡ some (connection_of inc)
  pub phases : count is_process_request_headers t.trace ≡ count is_process_request_headers s.trace
  pub forwards : count is_forward t.trace ≡ count is_forward s.trace

submit_uri-Ends :
    (env : Env) (inc : Incoming) (s t : State)
    → Connected env inc s t
    → Ends env inc s (submit_uri env inc t)
unfolding submit_uri to_char with_text
submit_uri-Ends env inc s t c =
    let t1 = log_call (pnalloc (length inc.unparsed_uri + 1)) t in
    let t2 = log_call (pnalloc (length inc.method_name + 1)) t1 in
    let t3 = log_call (uri_of inc) t2 in
    let uri_pool : ℕ → Bool = λ n. env.allocates (pnalloc n ∷ t.trace) in
    let method_pool : ℕ → Bool = λ n. env.allocates (pnalloc n ∷ t1.trace) in
    ground (
      arith,
      str_to_char-cases uri_pool inc.unparsed_uri,
      str_to_char-cases method_pool inc.method_name,
      headers_and_phase-Ends env inc s t3,
    )

-- Nothing that the engine sees has happened.
record Silent (env : Env) (s t : State) : Type 0 where
  pub headers : request_headers env t.trace ≡ request_headers env s.trace
  pub refused : refusals env t.trace ≡ refusals env s.trace
  pub phases : count is_process_request_headers t.trace ≡ count is_process_request_headers s.trace
  pub forwards : count is_forward t.trace ≡ count is_forward s.trace

addr_to_char-Silent :
    (env : Env) (is_unix : Bool) (bs : Bytes) (s : State)
    → let r = addr_to_char env is_unix bs s in
      ((r.0 ≡ none) ⊎ (r.0 ≡ some (address is_unix bs))) × Silent env s r.1
unfolding addr_to_char to_char
addr_to_char-Silent env is_unix bs s =
    let pool : ℕ → Bool = λ n. env.allocates (pnalloc n ∷ s.trace) in
    ground (arith, str_to_char-cases pool bs)

submit_connection-Ends :
    (env : Env) (inc : Incoming) (s t : State)
    → Silent env s t
    → Ends env inc s (submit_connection env inc t)
unfolding submit_connection with_text
submit_connection-Ends env inc s t q =
    let t1 = (addr_to_char env inc.client_is_unix inc.addr_text t).1 in
    let t2 = log_call local_sockaddr t1 in
    let t3 = (addr_to_char env inc.server_is_unix inc.server_addr t2).1 in
    let t4 = log_call (connection_of inc) t3 in
    ground (
      arith,
      addr_to_char-Silent env inc.client_is_unix inc.addr_text t,
      addr_to_char-Silent env inc.server_is_unix inc.server_addr t2,
      submit_uri-Ends env inc s t4,
    )

create_ctx-Silent : (env : Env) (w : Wafs) (s : State) → Silent env s (create_ctx env w s).1
unfolding create_ctx open_transaction adopt keep_id
create_ctx-Silent env w s = ground arith

-- On a request that the connector has not seen, in a location where it is on: nothing goes to the
-- client, and either phase 1 has run once, on this very connection and URI and on each header that
-- is not deleted, in order, unless the engine refused one of them that it was given by itself, an
-- answer that the code does not look at; and then the request goes on (NGX_DECLINED), or it is
-- answered by a positive status and the transaction is marked as intervened upon; or phase 1 has not
-- run, and the request does not go on: it is answered by a positive status.
pub rewrite_handler-Ends :
    (env : Env) (inc : Incoming) (s : State)
    → s.attached ≡ false
    → is_enabled s.mcf ≡ true
    → Ends env inc s (rewrite_handler env inc s)
unfolding rewrite_handler
rewrite_handler-Ends env inc s a e =
    let t = (create_ctx env inc.wafs s).1 in
    ground (arith, create_ctx-Silent env inc.wafs s, submit_connection-Ends env inc s t)
