-- ===== src/Rewrite/Given.antt =====
-- What the engine knows of a request when it runs phase 1, by the calls that it was given
-- (src/ngx_http_coraza_rewrite.c).
use coraza_nginx.Common.{
  ℕ, suc, ◌<◌, ◌≡◌, ◌⊎◌, arith, ◌++◌, Bool, Option, none, some, [], ◌∷◌, if◌then◌else◌,
}
use coraza_nginx.Pack.{Bytes, str_to_char}
use coraza_nginx.Runtime.{
  Env, State, Trace, Call, process_connection, process_uri, process_request_headers, count,
  is_process_request_headers,
}
use coraza_nginx.Headers.Seen.{request_headers, refusals}
use coraza_nginx.Rewrite.Text
use coraza_nginx.Rewrite.{Incoming, port_of, protocol, live}

-- The calls up to the last run of phase 1, that run left out.
abbrev pub before_phase : Trace → Trace
before_phase [] = []
before_phase (process_request_headers ∷ t) = t
before_phase (_ ∷ t) = before_phase t

-- The last calls about the connection and the URI.
abbrev pub connection_seen : Trace → Option Call
connection_seen [] = none
connection_seen (process_connection client cp server sp ∷ t) =
    some (process_connection client cp server sp)
connection_seen (_ ∷ t) = connection_seen t

abbrev pub uri_seen : Trace → Option Call
uri_seen [] = none
uri_seen (process_uri uri method version ∷ t) = some (process_uri uri method version)
uri_seen (_ ∷ t) = uri_seen t

-- A C string of these bytes.
abbrev pub c_string : Bytes → Bytes
c_string bs = bs ++ (0 ∷ [])

-- Memory for the string, or none.
pub str_to_char-cases :
    (pool : ℕ → Bool) (bs : Bytes)
    → (str_to_char pool bs ≡ none) ⊎ (str_to_char pool bs ≡ some (c_string bs))
unfolding str_to_char
str_to_char-cases pool bs = ground arith

abbrev pub address : Bool → Bytes → Bytes
address is_unix bs = if is_unix then Text.unix else c_string bs

abbrev pub connection_of : Incoming → Call
connection_of inc =
    process_connection (address inc.client_is_unix inc.addr_text)
      (port_of inc.client_is_unix inc.client_port) (address inc.server_is_unix inc.server_addr)
      (port_of inc.server_is_unix inc.server_port)

abbrev pub uri_of : Incoming → Call
uri_of inc =
    process_uri (c_string inc.unparsed_uri) (c_string inc.method_name) (protocol inc.http_version)

-- Phase 1 has run once, on the request as it came: its connection, its URI, and after the headers
-- that the engine had, each header that is not deleted, in order, unless the engine refused one that
-- it was given by itself.
pub record Informed (env : Env) (inc : Incoming) (s t : State) : Type 0 where
  pub phases :
      count is_process_request_headers t.trace ≡ suc (count is_process_request_headers s.trace)
  pub connection : connection_seen (before_phase t.trace) ≡ some (connection_of inc)
  pub uri : uri_seen (before_phase t.trace) ≡ some (uri_of inc)
  pub headers :
      (request_headers env (before_phase t.trace) ≡ request_headers env s.trace ++ live inc.headers)
      ⊎ (refusals env s.trace < refusals env (before_phase t.trace))
