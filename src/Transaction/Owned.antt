-- ===== src/Transaction/Owned.antt =====
-- Who frees a transaction: those that are open are the ones with a cleanup registered on the
-- request's pool (src/ngx_http_coraza_module.c and src/ngx_http_coraza_rewrite.c).
use coraza_nginx.Common.{
  ℕ, ◌+◌, ◌*◌, ◌≡◌, ◌⊎◌, ℤ, Bool, true, false, is_num, ngx_declined, Option, none, some, List, [],
  ◌∷◌, length, if◌then◌else◌, arith,
}
use coraza_nginx.Pack.{Bytes, Header, packed_size}
use coraza_nginx.Runtime.{
  Elt, Env, State, Trace, LocFlags, Call, new_transaction, new_transaction_with_id, count,
  is_free_transaction, log_call, palloc, pnalloc, local_sockaddr,
}
use coraza_nginx.Headers.{header_of, request_header_call, log_pack, pack}
use coraza_nginx.Logging.{log_handler}
use coraza_nginx.Intervention.{install_location, deny, process_intervention, poll_after_process}
use coraza_nginx.Transaction.{Wafs, create_ctx, open_transaction, adopt, keep_id}
use coraza_nginx.Rewrite.Given.{address, str_to_char-cases, connection_of, uri_of}
use coraza_nginx.Rewrite.{
  Incoming, live, pair_size, to_char, addr_to_char, with_text, send_packed, add_in_bulk, add_each,
  add_request_headers_in, answer, request_headers_phase, headers_and_phase, submit_uri,
  submit_connection, rewrite_handler,
}

-- A call that has made a transaction.
abbrev made : ℤ → ℕ
made handle = if is_num 0 handle then 0 else 1

-- The transactions that libcoraza has made for this request.
abbrev pub created : Env → Trace → ℕ
created env [] = 0
created env (new_transaction w ∷ t) = made (env.results (new_transaction w ∷ t)) + created env t
created env (new_transaction_with_id w id ∷ t) =
    made (env.results (new_transaction_with_id w id ∷ t)) + created env t
created env (_ ∷ t) = created env t

-- Each transaction that was made is freed or has its cleanup to come.
unfoldable pub IsOwned : Env → State → Type 0
IsOwned env s = created env s.trace ≡ count is_free_transaction s.trace + s.cleanups

create_ctx-IsOwned :
    (env : Env) (w : Wafs) (s : State) → IsOwned env s → IsOwned env (create_ctx env w s).1
unfolding IsOwned create_ctx open_transaction adopt keep_id
create_ctx-IsOwned env w s o = ground arith

-- A context is attached where the request may go on with one.
create_ctx-attached :
    (env : Env) (w : Wafs) (s : State)
    → let r = create_ctx env w s in (r.1.mcf ≡ s.mcf) × ((r.0 ≡ false) ⊎ (r.1.attached ≡ true))
unfolding create_ctx open_transaction adopt keep_id
create_ctx-attached env w s = ground arith

-- No transaction is made, freed or handed to the pool.
record Kept (env : Env) (s t : State) : Type 0 where
  pub same_created : created env t.trace ≡ created env s.trace
  pub same_freed : count is_free_transaction t.trace ≡ count is_free_transaction s.trace
  pub same_cleanups : t.cleanups ≡ s.cleanups
  pub same_attached : t.attached ≡ s.attached
  pub same_mcf : t.mcf ≡ s.mcf

add_each-Kept : (env : Env) (es : List Elt) (s : State) → Kept env s (add_each env es s).1
unfolding add_each
add_each-Kept env [] s = ground arith
add_each-Kept env (e ∷ es) s =
    let t = log_call (request_header_call (header_of e)) s in
    ground (arith, add_each-Kept env es s, add_each-Kept env es t)

log_pack-Kept : (env : Env) (total : Option ℕ) (s : State) → Kept env s (log_pack total s)
log_pack-Kept env none s = ground arith
log_pack-Kept env (some n) s = ground arith

add_in_bulk-Kept : (env : Env) (hs : List Header) (s : State) → Kept env s (add_in_bulk env hs s).1
unfolding add_in_bulk pack send_packed
add_in_bulk-Kept env [] s = ground arith
add_in_bulk-Kept env (h ∷ hs) s =
    let t = log_call (palloc (length (h ∷ hs) * pair_size)) s in
    ground (arith, log_pack-Kept env (packed_size 0 (h ∷ hs)) t)

add_request_headers_in-Kept :
    (env : Env) (es : List Elt) (s : State) → Kept env s (add_request_headers_in env es s).1
unfolding add_request_headers_in
add_request_headers_in-Kept env es s =
    let t = (add_in_bulk env (live es) s).1 in
    ground (arith, add_in_bulk-Kept env (live es) s, add_each-Kept env es t)

process_intervention-Kept : (env : Env) (s : State) → Kept env s (process_intervention env true s).1
unfolding process_intervention deny install_location log_handler
process_intervention-Kept env s = ground arith

request_headers_phase-Kept : (env : Env) (s : State) → Kept env s (request_headers_phase env s).1
unfolding request_headers_phase answer poll_after_process
request_headers_phase-Kept env s =
    let t = log_call Call.process_request_headers s in
    ground (arith, process_intervention-Kept env t)

headers_and_phase-Kept :
    (env : Env) (es : List Elt) (s : State) → Kept env s (headers_and_phase env es s).1
unfolding headers_and_phase
headers_and_phase-Kept env es s =
    let t = (add_request_headers_in env es s).1 in
    ground (arith, add_request_headers_in-Kept env es s, request_headers_phase-Kept env t)

submit_uri-Kept : (env : Env) (inc : Incoming) (s : State) → Kept env s (submit_uri env inc s).1
unfolding submit_uri to_char with_text
submit_uri-Kept env inc s =
    let t1 = log_call (pnalloc (length inc.unparsed_uri + 1)) s in
    let t2 = log_call (pnalloc (length inc.method_name + 1)) t1 in
    let t3 = log_call (uri_of inc) t2 in
    let uri_pool : ℕ → Bool = λ n. env.allocates (pnalloc n ∷ s.trace) in
    let method_pool : ℕ → Bool = λ n. env.allocates (pnalloc n ∷ t1.trace) in
    ground (
      arith,
      str_to_char-cases uri_pool inc.unparsed_uri,
      str_to_char-cases method_pool inc.method_name,
      headers_and_phase-Kept env inc.headers t3,
    )

addr_to_char-Kept :
    (env : Env) (is_unix : Bool) (bs : Bytes) (s : State)
    → let r = addr_to_char env is_unix bs s in
      ((r.0 ≡ none) ⊎ (r.0 ≡ some (address is_unix bs))) × Kept env s r.1
unfolding addr_to_char to_char
addr_to_char-Kept env is_unix bs s =
    let pool : ℕ → Bool = λ n. env.allocates (pnalloc n ∷ s.trace) in
    ground (arith, str_to_char-cases pool bs)

submit_connection-Kept :
    (env : Env) (inc : Incoming) (s : State) → Kept env s (submit_connection env inc s).1
unfolding submit_connection with_text
submit_connection-Kept env inc s =
    let t1 = (addr_to_char env inc.client_is_unix inc.addr_text s).1 in
    let t2 = log_call local_sockaddr t1 in
    let t3 = (addr_to_char env inc.server_is_unix inc.server_addr t2).1 in
    let t4 = log_call (connection_of inc) t3 in
    ground (
      arith,
      addr_to_char-Kept env inc.client_is_unix inc.addr_text s,
      addr_to_char-Kept env inc.server_is_unix inc.server_addr t2,
      submit_uri-Kept env inc t4,
    )

rewrite_handler-IsOwned :
    (env : Env) (inc : Incoming) (s : State)
    → IsOwned env s
    → IsOwned env (rewrite_handler env inc s).1
unfolding IsOwned rewrite_handler
rewrite_handler-IsOwned env inc s o =
    let t = (create_ctx env inc.wafs s).1 in
    ground (arith, create_ctx-IsOwned env inc.wafs s o, submit_connection-Kept env inc t)

-- A request that was let go on is let go on again, and nothing is called: a further visit of the
-- phase, as after a rewrite of the URI, makes no second transaction.
pub rewrite_handler-again :
    (env : Env) (inc again : Incoming) (s : State)
    → (rewrite_handler env inc s).0 ≡ ngx_declined
    → let t = (rewrite_handler env inc s).1 in rewrite_handler env again t ≡ (ngx_declined, t)
unfolding rewrite_handler
rewrite_handler-again env inc again s e =
    let t = (create_ctx env inc.wafs s).1 in
    ground (arith, create_ctx-attached env inc.wafs s, submit_connection-Kept env inc t)

-- What may happen to a request: its rewrite phase, nginx clearing the context slot or moving the
-- request to another location, and any other call, which neither makes a transaction nor frees one.
pub data Step (env : Env) : State → State → Type 0 where
  visit : {s : State} (inc : Incoming) → Step env s (rewrite_handler env inc s).1
  redirect : {s : State} (f : Option LocFlags) → Step env s (record s { attached = false; mcf = f })
  other :
      {s : State} (c : Call)
      → is_free_transaction c ≡ false
      → created env (c ∷ s.trace) ≡ created env s.trace
      → Step env s (log_call c s)

pub data Reach (env : Env) (s : State) : State → Type 0 where
  here : Reach env s s
  next : {t u : State} → Reach env s t → Step env t u → Reach env s u

Step-IsOwned : {env : Env} {s t : State} → Step env s t → IsOwned env s → IsOwned env t
unfolding IsOwned
Step-IsOwned {env = env} {s = s} (visit inc) o = rewrite_handler-IsOwned env inc s o
Step-IsOwned (redirect f) o = o
Step-IsOwned (other c p q) o = ground arith

-- However often a request passes the rewrite phase, and whatever internal redirects hide its
-- context in between: the transactions that libcoraza has made for it stay as many as those that
-- were freed and the cleanups that are registered on the request's pool together, also where the
-- creation goes wrong halfway. So none is left without an owner.
pub Reach-IsOwned : {env : Env} {s t : State} → IsOwned env s → Reach env s t → IsOwned env t
Reach-IsOwned o here = o
Reach-IsOwned o (next r st) = Step-IsOwned st (Reach-IsOwned o r)
