-- ===== src/Life/Requests.antt =====
-- The rewrite handler (src/ngx_http_coraza_rewrite.c) and the account.
use coraza_nginx.Common.{
  ◌+◌, ◌*◌, ◌≤◌, ◌≡◌, inl, inr, refl, sym, subst, ℤ, Bool, Bool-cases, Option-cases, true, false,
  Option, List, [], ◌∷◌, length, if◌then◌else◌, eq_code, ngx_ok, not, internal_server_error, arith,
}
use coraza_nginx.Pack.{Bytes, Header, packed_size}
use coraza_nginx.Runtime.{
  Env, State, Elt, M, pure, branch, log_call, process_uri, process_connection, palloc,
  local_sockaddr, process_request_headers,
}
use coraza_nginx.Headers.{header_of, request_header_call, pack}
use coraza_nginx.Logging.{is_enabled, log_handler}
use coraza_nginx.Intervention.{
  process_intervention, settle, deny, install_location, poll_after_process,
}
use coraza_nginx.Rewrite.{
  Incoming, protocol, port_of, live, pair_size, to_char, addr_to_char, with_text, send_packed,
  add_in_bulk, add_each, add_request_headers_in, answer, request_headers_phase, headers_and_phase,
  submit_uri, submit_connection,
}
use coraza_nginx.Life.Inert.{Account, account, Inert}
use coraza_nginx.Life.Heads.{log_pack-Inert}

add_each-Inert : (env : Env) (es : List Elt) → Inert env (add_each env es)
unfolding add_each
add_each-Inert env [] s = refl
add_each-Inert env (e ∷ es) s =
    let t = log_call (request_header_call (header_of e)) s in
    ground (arith, add_each-Inert env es s, add_each-Inert env es t)

add_in_bulk-Inert : (env : Env) (hs : List Header) → Inert env (add_in_bulk env hs)
unfolding add_in_bulk pack send_packed
add_in_bulk-Inert env [] s = refl
add_in_bulk-Inert env (h ∷ hs) s =
    let t = log_call (palloc (length (h ∷ hs) * pair_size)) s in
    ground (arith, log_pack-Inert env (packed_size 0 (h ∷ hs)) t)

add_request_headers_in-Inert :
    (env : Env) (es : List Elt) → Inert env (add_request_headers_in env es)
unfolding add_request_headers_in
add_request_headers_in-Inert env es s =
    let t = (add_in_bulk env (live es) s).1 in
    ground (arith, add_in_bulk-Inert env (live es) s, add_each-Inert env es t)

-- The rest of the handler, for a request that has a context: phase 1 runs at most once more, and
-- the flag still says whether the transaction is logged.
pub record Onward (a b : Account) : Type 0 where
  pub same_made : b.made ≡ a.made
  pub same_freed : b.freed ≡ a.freed
  pub same_cleanups : b.cleanups ≡ a.cleanups
  pub same_attached : b.attached ≡ a.attached
  pub same_processed : b.processed ≡ a.processed
  pub same_response_phases : b.response_phases ≡ a.response_phases
  pub one_phase : b.request_phases ≤ a.request_phases + 1
  pub logs :
      a.attached ≡ true
      → is_enabled a.mcf ≡ true
      → a.loggings ≡ (if a.logged then 1 else 0)
      → b.loggings ≡ (if b.logged then 1 else 0)

Onward-refl : (a : Account) → Onward a a
Onward-refl a = ground arith

-- A poll that may log early.
early_poll-Onward :
    (env : Env) (s : State)
    → let b = account env (process_intervention env true s).1 in
      Onward (account env s) b × (b.request_phases ≡ (account env s).request_phases)
unfolding process_intervention settle deny install_location log_handler
early_poll-Onward env s = ground arith

poll-Onward :
    (env : Env) (pret : ℤ) (s : State)
    → let b = account env (poll_after_process env true pret s).1 in
      Onward (account env s) b × (b.request_phases ≡ (account env s).request_phases)
unfolding poll_after_process
poll-Onward env pret s = ground (arith, early_poll-Onward env s)

answer-Inert : (env : Env) (ret : ℤ) → Inert env (answer ret)
unfolding answer
answer-Inert env ret s = ground arith

abbrev Goes : Env → M ℤ → Type 0
Goes env m = (s : State) → Onward (account env s) (account env (m s).1)

Inert-Goes : (env : Env) (m : M ℤ) → Inert env m → Goes env m
Inert-Goes env m i s = subst (Onward (account env s)) (sym (i s)) (Onward-refl (account env s))

request_headers_phase-Goes : (env : Env) → Goes env (request_headers_phase env)
unfolding request_headers_phase
request_headers_phase-Goes env s =
    let t = log_call process_request_headers s in
    let pret = env.results t.trace in
    let (o, same) = poll-Onward env pret t in
    let r = poll_after_process env true pret t in
    let later : Onward (account env s) (account env r.1) = record {
      same_made = o.same_made;
      same_freed = o.same_freed;
      same_cleanups = o.same_cleanups;
      same_attached = o.same_attached;
      same_processed = o.same_processed;
      same_response_phases = o.same_response_phases;
      one_phase = omega (arith, same);
      logs = o.logs;
    } in
    subst (Onward (account env s)) (sym (answer-Inert env r.0 r.1)) later

-- Behind code that keeps the account.
after-Inert :
    (env : Env) (s t u : State)
    → account env t ≡ account env s
    → Onward (account env t) (account env u)
    → Onward (account env s) (account env u)
after-Inert env s t u e o = subst (λ a. Onward a (account env u)) e o

headers_and_phase-Goes : (env : Env) (es : List Elt) → Goes env (headers_and_phase env es)
unfolding headers_and_phase
headers_and_phase-Goes env es s =
    let r = add_request_headers_in env es s in
    let i = add_request_headers_in-Inert env es s in
    elim (Bool-cases (eq_code ngx_ok r.0)) [
      | inl e ↦ rw e (
          after-Inert env s r.1 (request_headers_phase env r.1).1 i
            (request_headers_phase-Goes env r.1))
      | inr e ↦
          rw e
            (Inert-Goes env (add_request_headers_in env es) (add_request_headers_in-Inert env es) s)
    ]

to_char-Inert : (env : Env) (bs : Bytes) → Inert env (to_char env bs)
unfolding to_char
to_char-Inert env bs s = refl

addr_to_char-Inert :
    (env : Env) (is_unix : Bool) (bs : Bytes) → Inert env (addr_to_char env is_unix bs)
unfolding addr_to_char
addr_to_char-Inert env true bs s = refl
addr_to_char-Inert env false bs s = to_char-Inert env bs s

-- A step that needs a string, which is made without touching the account.
text-Goes :
    (env : Env) (m : M (Option Bytes)) (next : Bytes → M ℤ)
    → Inert env m
    → ((b : Bytes) → Goes env (next b))
    → Goes env (λ s. with_text (m s).0 next (m s).1)
unfolding with_text
text-Goes env m next i g s = elim (Option-cases (m s).0) [
  | inl e ↦ rw e (subst (Onward (account env s)) (sym (i s)) (Onward-refl (account env s)))
  | inr (b, e) ↦ rw e (after-Inert env s (m s).1 (next b (m s).1).1 (i s) (g b (m s).1))
]

abbrev with_method : Env → Incoming → Bytes → Bytes → M ℤ
with_method env inc uri method s =
    headers_and_phase env inc.headers
      (log_call (process_uri uri method (protocol inc.http_version)) s)

abbrev with_uri : Env → Incoming → Bytes → M ℤ
with_uri env inc uri s =
    with_text (to_char env inc.method_name s).0 (with_method env inc uri)
      (to_char env inc.method_name s).1

submit_uri-Goes : (env : Env) (inc : Incoming) → Goes env (submit_uri env inc)
unfolding submit_uri
submit_uri-Goes env inc =
    text-Goes env (to_char env inc.unparsed_uri) (with_uri env inc)
      (to_char-Inert env inc.unparsed_uri)
      (λ uri.
        text-Goes env (to_char env inc.method_name) (with_method env inc uri)
          (to_char-Inert env inc.method_name)
          (λ method s.
            headers_and_phase-Goes env inc.headers
              (log_call (process_uri uri method (protocol inc.http_version)) s)))

abbrev with_server : Env → Incoming → Bytes → Bytes → M ℤ
with_server env inc client server s = submit_uri env inc (
    log_call
      (process_connection client (port_of inc.client_is_unix inc.client_port) server
        (port_of inc.server_is_unix inc.server_port))
      s)

abbrev with_client : Env → Incoming → Bytes → M ℤ
with_client env inc client s =
    let t = log_call local_sockaddr s in
    let m = addr_to_char env inc.server_is_unix inc.server_addr in
    branch (not (env.allocates t.trace)) (pure internal_server_error)
      (λ u. with_text (m u).0 (with_server env inc client) (m u).1) t

with_client-Goes :
    (env : Env) (inc : Incoming) (client : Bytes) → Goes env (with_client env inc client)
with_client-Goes env inc client s =
    let t = log_call local_sockaddr s in
    let m = addr_to_char env inc.server_is_unix inc.server_addr in
    elim (Bool-cases (env.allocates t.trace)) [
      | inl e ↦ rw e (
          text-Goes env m (with_server env inc client)
            (addr_to_char-Inert env inc.server_is_unix inc.server_addr)
            (λ server u. submit_uri-Goes env inc (
              log_call
                (process_connection client (port_of inc.client_is_unix inc.client_port) server
                  (port_of inc.server_is_unix inc.server_port))
                u))
            t)
      | inr e ↦ rw e (Onward-refl (account env s))
    ]

pub submit_connection-Goes : (env : Env) (inc : Incoming) → Goes env (submit_connection env inc)
unfolding submit_connection
submit_connection-Goes env inc =
    text-Goes env (addr_to_char env inc.client_is_unix inc.addr_text) (with_client env inc)
      (addr_to_char-Inert env inc.client_is_unix inc.addr_text) (with_client-Goes env inc)
