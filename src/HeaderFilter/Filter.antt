-- ===== src/HeaderFilter/Filter.antt =====
-- The pass over the header list, the flush of what was collected, phase 3, and the filter.
use coraza_nginx.Common.{
  ℕ, ◌+◌, ◌%◌, ◌==◌, ℤ, pos, negsuc, Bool, true, false, not, ◌&&◌, ◌||◌, is_neg, is_pos, is_num,
  eq_code, ngx_ok, Option, none, some, List, [], ◌∷◌, length, if◌then◌else◌,
}
use coraza_nginx.Pack.{Bytes, Header, Packed}
use coraza_nginx.Runtime.{
  Elt, Env, HeadersOut, LocFlags, Request, State, M, pure, branch, ◌>>=◌, ◌>>◌, get, ask, allocate,
  set_ctx, set_req, trigger, array_create, add_response_headers, process_response_headers,
  response_body_processable, finalize_request,
}
use coraza_nginx.Headers.{header_of, to_int, pack}
use coraza_nginx.Intervention.{is_redirect_status, poll_after_process}
use coraza_nginx.Redirect.{forward_header, prepare_redirect}
use coraza_nginx.BodyFilter.Stages.{has_location}
use coraza_nginx.Sse.{is_sse_response}
use coraza_nginx.HeaderFilter.Value
use coraza_nginx.HeaderFilter.Collect.{add_header, and_then}
use coraza_nginx.HeaderFilter.Resolvers.{Head, headers_out}

abbrev pub is_pointer : Option ℕ → ℕ → Bool
is_pointer none i = false
is_pointer (some j) i = j == i

-- The elements that the resolvers have submitted already.
abbrev pub is_hoisted : HeadersOut → ℕ → Bool
is_hoisted o i =
    is_pointer o.server i
    || (is_pointer o.date i
        || (is_pointer o.last_modified i && not (eq_code (negsuc 0) o.last_modified_time)))

-- The second pass, from the element at place `i`.
unfoldable pub list_headers : Env → HeadersOut → ℕ → List Elt → M ℤ
list_headers env o i [] = pure ngx_ok
list_headers env o i (e ∷ es) =
    let rest = list_headers env o (i + 1) es in
    branch (e.hash == 0 || is_hoisted o i) rest (and_then (add_header env (header_of e)) rest)

-- The replay of the collected headers, one by one.
unfoldable pub replay : Env → List Header → M ℤ
replay env [] = pure ngx_ok
replay env (h ∷ hs) = and_then (add_header env h) (replay env hs)

-- The one call for a packed set; the answer says whether the engine took it.
unfoldable pub hand_over : Env → ℕ → Option Packed → M Bool
hand_over env count none = pure false
hand_over env count (some p) = do
  rc ← ask env (add_response_headers p.out (to_int p.out_len) (to_int count))
  pure (not (is_neg rc))

unfoldable pub submit_bulk : Env → List Header → M Bool
unfolding hand_over
submit_bulk env [] = pure false
submit_bulk env (h ∷ hs) = do packed ← pack env (h ∷ hs); hand_over env (length (h ∷ hs)) packed

unfoldable pub flush_pairs : Env → Option (List Header) → M ℤ
flush_pairs env none = pure ngx_ok
flush_pairs env (some pairs) = do
  set_ctx (λ c. record c { resp_hdr_collect = none })
  bulk_ok ← submit_bulk env pairs
  branch bulk_ok (pure ngx_ok) (replay env pairs)

unfoldable pub flush_collected : Env → M ℤ
unfolding flush_pairs
flush_collected env = do s ← get; flush_pairs env s.ctx.resp_hdr_collect

unfoldable pub submit_list : Env → M ℤ
submit_list env = do s ← get; list_headers env s.req.out 0 s.req.out.headers

-- Both passes and the flush.
unfoldable pub submit_headers : Env → Head → M ℤ
submit_headers env hd =
    and_then (headers_out env hd) (and_then (submit_list env) (flush_collected env))

abbrev pub reported_status : Request → ℤ
reported_status r = if is_num 0 r.err_status then r.out.status else r.err_status

-- "HTTP/2.0", "HTTP/3.0" or "HTTP/1.1", in a build with both of the newer protocols.
abbrev pub protocol : ℕ → Bytes
protocol version =
    if version == 3000
    then Value.http_3
    else if version == 2000
    then Value.http_2
    else Value.http_1_1

-- What a field of one bit keeps of an `int`.
abbrev pub low_bit : ℤ → Bool
low_bit (pos n) = n % 2 == 1
low_bit (negsuc n) = n % 2 == 0

abbrev pub has_conf : Option LocFlags → Bool
has_conf none = false
has_conf (some f) = true

abbrev pub delays : Option LocFlags → Bool
delays none = false
delays (some f) = f.delay_response_headers

-- Whether the header is held back until phase 4 is done.
unfoldable pub is_held : Head → Option LocFlags → Request → Bool
is_held hd mcf r =
    delays mcf
    && (not hd.is_head_method
        && (not r.header_only
            && (not r.error_page
                && (hd.is_main
                    && (not (is_num 101 r.out.status)
                        && not (is_sse_response r.out.content_type))))))

unfoldable pub hold_or_send : Env → Head → M ℤ
hold_or_send env hd = do
  s ← get
  branch (is_held hd s.mcf s.req)
      (do
        branch s.ctx.response_body_processable
            (set_req (λ r. record r { filter_need_in_memory = true })) (pure tt)
        set_ctx (λ c. record c { headers_delayed = true; pending_chain = [] })
        pure ngx_ok)
      (forward_header env)

-- A denial before the header is sent.
unfoldable pub refuse : Env → ℤ → M ℤ
refuse env ret = do
  trigger
  s ← get
  branch (is_redirect_status ret && has_location s.req.out.location)
      (do prepare_redirect ret; forward_header env) (ask env (finalize_request ret))

-- Phase 3, and the question whether the engine wants the body.
unfoldable pub response_headers_phase : Env → Head → M ℤ
response_headers_phase env hd = do
  s ← get
  pret ← ask env (process_response_headers (reported_status s.req) (protocol hd.http_version))
  processable ← ask env response_body_processable
  set_ctx (λ c. record c { response_body_processable = low_bit processable })
  pure pret

unfoldable pub headers_phase : Env → Head → M ℤ
headers_phase env hd = do pret ← response_headers_phase env hd; poll_after_process env false pret

unfoldable pub decide : Env → Head → ℤ → M ℤ
decide env hd ret = do
  s ← get
  branch s.req.error_page (forward_header env)
      (branch (is_pos ret) (refuse env ret) (hold_or_send env hd))

unfoldable pub phase_and_decide : Env → Head → M ℤ
phase_and_decide env hd = do ret ← headers_phase env hd; decide env hd ret

abbrev pub collector : Bool → Option (List Header)
collector true = some []
collector false = none

-- No context, no configuration, a denial already, or a header that is inspected already.
unfoldable pub passes_on : State → Bool
passes_on s =
    not s.attached || (not (has_conf s.mcf) || (s.ctx.intervention_triggered || s.ctx.processed))

unfoldable pub header_filter : Env → Head → M ℤ
header_filter env hd = do
  s ← get
  branch (passes_on s) (forward_header env) (do
    set_ctx (λ c. record c { processed = true })
    armed ← allocate env array_create
    set_ctx (λ c. record c { resp_hdr_collect = collector armed })
    and_then (submit_headers env hd) (phase_and_decide env hd))
