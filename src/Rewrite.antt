-- ===== src/Rewrite.antt =====
-- src/ngx_http_coraza_rewrite.c: the transaction is created, the connection, the URI and the
-- headers of the request go to the engine, and phase 1 runs.
pub mod Text
pub mod Given
pub mod Told
pub mod Phase1
pub mod Informs
mod Examples
use coraza_nginx.Common.{
  ℕ, ◌+◌, ◌*◌, ◌==◌, ltb, ℤ, pos, negsuc, Bool, true, false, not, ◌||◌, is_neg, is_pos, ngx_ok,
  ngx_declined, internal_server_error, eq_code, Option, none, some, List, [], ◌∷◌, ◌++◌, length,
  if◌then◌else◌,
}
use coraza_nginx.Pack.{Bytes, Header, Packed, int_max, str_to_char}
use coraza_nginx.Runtime.{
  Elt, Env, State, M, pure, branch, ◌>>=◌, ◌>>◌, get, ask, allocate, call, log_call, trigger,
  palloc, pnalloc, local_sockaddr, process_connection, process_uri, process_request_headers,
  add_request_headers,
}
use coraza_nginx.Headers.{header_of, to_int, request_header_call, pack}
use coraza_nginx.Logging.{is_enabled}
use coraza_nginx.Intervention.{poll_after_process}
use coraza_nginx.Transaction.{Wafs, create_ctx}
use coraza_nginx.Rewrite.Text

-- What the handler reads of the request, its connection and its configurations. `server_addr` is
-- what `ngx_sock_ntop` writes of the local address.
pub record Incoming : Type 0 where
  pub wafs : Wafs
  pub client_is_unix : Bool
  pub addr_text : Bytes
  pub client_port : ℕ
  pub server_is_unix : Bool
  pub server_addr : Bytes
  pub server_port : ℕ
  pub http_version : ℕ
  pub unparsed_uri : Bytes
  pub method_name : Bytes
  pub headers : List Elt

-- `ngx_str_to_char` in the request's pool.
unfoldable pub to_char : Env → Bytes → M (Option Bytes)
to_char env bs s = (
  str_to_char (λ n. env.allocates (pnalloc n ∷ s.trace)) bs,
  log_call (pnalloc (length bs + 1)) s,
)

-- An address as a C string; that of a unix domain socket is the word "unix".
unfoldable pub addr_to_char : Env → Bool → Bytes → M (Option Bytes)
unfolding to_char
addr_to_char env is_unix bs = branch is_unix (pure (some Text.unix)) (to_char env bs)

-- The port of a unix domain socket is 0.
abbrev pub port_of : Bool → ℕ → ℕ
port_of is_unix port = if is_unix then 0 else port

abbrev pub protocol : ℕ → Bytes
protocol version =
    if version == 9
    then Text.http_0_9
    else if version == 1000
    then Text.http_1_0
    else if version == 1001
    then Text.http_1_1
    else if version == 2000
    then Text.http_2
    else if version == 3000
    then Text.http_3
    else Text.http_1_0

-- A step that needs a string; without memory for it the request ends.
unfoldable pub with_text : Option Bytes → (Bytes → M ℤ) → M ℤ
with_text none next = pure internal_server_error
with_text (some text) next = next text

-- The pairs of the elements that are not deleted.
unfoldable pub live : List Elt → List Header
live [] = []
live (e ∷ es) = if e.hash == 0 then live es else header_of e ∷ live es

-- The size of an `ngx_http_coraza_header_t`.
abbrev pub pair_size : ℕ
pair_size = 32

unfoldable pub send_packed : Env → ℕ → Option Packed → M Bool
send_packed env count none = pure false
send_packed env count (some p) = do
  rc ← ask env (add_request_headers p.out (to_int p.out_len) (to_int count))
  pure (not (is_neg rc))

-- The fast path; the answer is `bulk_done`.
unfoldable pub add_in_bulk : Env → List Header → M Bool
unfolding send_packed
add_in_bulk env [] = pure true
add_in_bulk env (h ∷ hs) = do
  allocated ← allocate env (palloc (length (h ∷ hs) * pair_size))
  branch (not allocated) (pure false)
      (do packed ← pack env (h ∷ hs); send_packed env (length (h ∷ hs)) packed)

-- The loop over the headers; the engine's answer is not read.
unfoldable pub add_each : Env → List Elt → M ℤ
add_each env [] = pure ngx_ok
add_each env (e ∷ es) =
    let rest = add_each env es in
    branch (e.hash == 0) rest (
      branch (ltb int_max (length e.key) || ltb int_max (length e.value))
        (do trigger; pure internal_server_error)
        (do call (request_header_call (header_of e)); rest))

-- NGX_OK, or the answer to the request.
unfoldable pub add_request_headers_in : Env → List Elt → M ℤ
unfolding add_in_bulk add_each
add_request_headers_in env es = do
  bulk_done ← add_in_bulk env (live es)
  branch bulk_done (pure ngx_ok) (add_each env es)

-- Phase 1, and the answer to the request.
unfoldable pub answer : ℤ → M ℤ
answer ret = do
  s ← get
  branch s.req.error_page (pure ngx_declined) (
      branch (is_neg ret) (do trigger; pure internal_server_error)
        (branch (is_pos ret) (do trigger; pure ret) (pure ngx_declined)))

unfoldable pub request_headers_phase : Env → M ℤ
unfolding answer
request_headers_phase env = do
  pret ← ask env process_request_headers
  ret ← poll_after_process env true pret
  answer ret

unfoldable pub headers_and_phase : Env → List Elt → M ℤ
unfolding request_headers_phase
headers_and_phase env es = do
  rc ← add_request_headers_in env es
  branch (eq_code ngx_ok rc) (request_headers_phase env) (pure rc)

-- From the URI on.
unfoldable pub submit_uri : Env → Incoming → M ℤ
unfolding with_text
submit_uri env inc = do
  uri_text ← to_char env inc.unparsed_uri
  with_text uri_text (λ uri. do
    method_text ← to_char env inc.method_name
    with_text method_text (λ method. do
      call (process_uri uri method (protocol inc.http_version))
      headers_and_phase env inc.headers))

-- From the connection on.
unfoldable pub submit_connection : Env → Incoming → M ℤ
unfolding with_text submit_uri
submit_connection env inc = do
  client_text ← addr_to_char env inc.client_is_unix inc.addr_text
  with_text client_text (λ client. do
    found ← allocate env local_sockaddr
    branch (not found) (pure internal_server_error) (do
      server_text ← addr_to_char env inc.server_is_unix inc.server_addr
      with_text server_text (λ server. do
        call (
            process_connection client (port_of inc.client_is_unix inc.client_port) server
              (port_of inc.server_is_unix inc.server_port))
        submit_uri env inc)))

unfoldable pub rewrite_handler : Env → Incoming → M ℤ
unfolding submit_connection
rewrite_handler env inc = do
  s ← get
  branch (not (is_enabled s.mcf) || s.attached) (pure ngx_declined) (do
    created ← create_ctx env inc.wafs
    branch (not created) (pure internal_server_error) (submit_connection env inc))
