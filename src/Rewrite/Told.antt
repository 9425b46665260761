-- ===== src/Rewrite/Told.antt =====
-- The submission of the request's headers (src/ngx_http_coraza_rewrite.c).
use coraza_nginx.Common.{
  ℕ, ◌*◌, ◌≤◌, ◌<◌, ◌≡◌, refl, ◌⊎◌, inl, ℤ, Bool, ngx_ok, internal_server_error, Option, none, some,
  List, [], ◌∷◌, ◌++◌, append_assoc, append-nil, length, if◌then◌else◌, arith,
}
use coraza_nginx.Pack.{Header, Packed, int_max, packed_size, pack_headers}
use coraza_nginx.Runtime.{
  Elt, Env, State, count, is_forward, is_process_request_headers, log_call, pnalloc, palloc,
}
use coraza_nginx.Headers.{header_of, to_int, request_header_call, log_pack, pack}
use coraza_nginx.Headers.Seen.{one_header, unpack, request_headers, refusals}
use coraza_nginx.Headers.Whole.{span-length, unpack-pack_headers}
use coraza_nginx.Rewrite.{
  live, pair_size, send_packed, add_in_bulk, add_each, add_request_headers_in,
}
use coraza_nginx.Rewrite.Given.{connection_seen, uri_seen}

-- The engine has these headers after those that it had, or it has refused one that it was given by
-- itself; and nothing else has happened.
pub record Told (env : Env) (hs : List Header) (s t : State) : Type 0 where
  pub headers :
      (request_headers env t.trace ≡ request_headers env s.trace ++ hs)
      ⊎ (refusals env s.trace < refusals env t.trace)
  pub refused : refusals env s.trace ≤ refusals env t.trace
  pub connection : connection_seen t.trace ≡ connection_seen s.trace
  pub uri : uri_seen t.trace ≡ uri_seen s.trace
  pub phases : count is_process_request_headers t.trace ≡ count is_process_request_headers s.trace
  pub forwards : count is_forward t.trace ≡ count is_forward s.trace
  pub same_ctx : t.ctx ≡ s.ctx
  pub same_attached : t.attached ≡ s.attached
  pub same_mcf : t.mcf ≡ s.mcf
  pub same_req : t.req ≡ s.req

-- The request has ended before phase 1, with an error status.
pub record Ended (s : State) (r : ℤ × State) : Type 0 where
  pub is_internal : r.0 ≡ internal_server_error
  pub phases : count is_process_request_headers r.1.trace ≡ count is_process_request_headers s.trace
  pub forwards : count is_forward r.1.trace ≡ count is_forward s.trace

one_header-whole :
    (e : Elt)
    → length e.key ≤ int_max
    → length e.value ≤ int_max
    → one_header e.key (to_int (length e.key)) e.value (to_int (length e.value)) ≡ header_of e ∷ []
one_header-whole e k v = rw (span-length e.key k, span-length e.value v)

add_each-Told :
    (env : Env) (es : List Elt) (s : State)
    → let r = add_each env es s in ((r.0 ≡ ngx_ok) × Told env (live es) s r.1) ⊎ Ended s r
unfolding add_each live
add_each-Told env [] s = inl (refl, ground (arith, append-nil (request_headers env s.trace)))
add_each-Told env (e ∷ es) s =
    let t = log_call (request_header_call (header_of e)) s in
    ground (
      arith,
      add_each-Told env es s,
      add_each-Told env es t,
      one_header-whole e,
      append_assoc (request_headers env s.trace) (header_of e ∷ []) (live es),
    )

-- The bulk path has given the engine all of the headers or none.
abbrev Bulk : Env → List Header → State → Bool × State → Type 0
Bulk env hs s r = Told env (if r.0 then hs else []) s r.1

send_packed-Bulk :
    (env : Env) (hs : List Header) (packed : Option Packed) (s : State)
    → ((p : Packed) → packed ≡ some p → unpack p.out (to_int p.out_len) (to_int (length hs)) ≡ hs)
    → Bulk env hs s (send_packed env (length hs) packed s)
unfolding send_packed
send_packed-Bulk env hs none s f = ground (arith, append-nil (request_headers env s.trace))
send_packed-Bulk env hs (some p) s f = ground (arith, f p refl)

log_pack-Bulk :
    (env : Env) (hs : List Header) (total : Option ℕ) (s : State) (r : Bool × State)
    → Bulk env hs (log_pack total s) r
    → Bulk env hs s r
log_pack-Bulk env hs none s r b = b
log_pack-Bulk env hs (some total) s r b = ground (arith, b)

add_in_bulk-Bulk : (env : Env) (hs : List Header) (s : State) → Bulk env hs s (add_in_bulk env hs s)
unfolding add_in_bulk pack
add_in_bulk-Bulk env [] s = ground (arith, append-nil (request_headers env s.trace))
add_in_bulk-Bulk env (h ∷ hs) s =
    let t = log_call (palloc (length (h ∷ hs) * pair_size)) s in
    let pool : ℕ → Bool = λ n. env.allocates (pnalloc n ∷ t.trace) in
    let packed = pack_headers pool (h ∷ hs) in
    let sized = packed_size 0 (h ∷ hs) in
    ground (
      arith,
      append-nil (request_headers env s.trace),
      log_pack-Bulk env (h ∷ hs) sized t
          (send_packed env (length (h ∷ hs)) packed (log_pack sized t))
          (send_packed-Bulk env (h ∷ hs) packed (log_pack sized t)
            (unpack-pack_headers pool (h ∷ hs))),
    )

pub add_request_headers_in-Told :
    (env : Env) (es : List Elt) (s : State)
    → let r = add_request_headers_in env es s in
      ((r.0 ≡ ngx_ok) × Told env (live es) s r.1) ⊎ Ended s r
unfolding add_request_headers_in
add_request_headers_in-Told env es s =
    let t = (add_in_bulk env (live es) s).1 in
    ground (
      arith,
      add_in_bulk-Bulk env (live es) s,
      add_each-Told env es t,
      append-nil (request_headers env s.trace),
    )
