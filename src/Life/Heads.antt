-- ===== src/Life/Heads.antt =====
-- The header filter (src/ngx_http_coraza_header_filter.c) keeps the account but for its phase.
use coraza_nginx.Common.{
  ℕ, suc, ◌+◌, ◌≡◌, inl, inr, refl, ap, ◌∙◌, ℤ, pos, negsuc, Bool-cases, true, false, Option, none,
  some, List, [], ◌∷◌, length, eq_code, ngx_ok, arith,
}
use coraza_nginx.Pack.{Header, Packed, packed_size}
use coraza_nginx.Runtime.{Env, State, Elt, HeadersOut, M, array_create}
use coraza_nginx.Headers.{header_of, pack, log_pack}
use coraza_nginx.Redirect.{forward_header, prepare_redirect}
use coraza_nginx.HeaderFilter.Collect.{
  collect_header, submit_header, collect_or_submit, add_header, and_then,
}
use coraza_nginx.HeaderFilter.Resolvers.{
  Head, resolv_header_server, resolv_header_date, length_header, resolv_header_content_length,
  resolv_header_content_type, resolv_header_last_modified, resolv_header_connection,
  resolv_header_transfer_encoding, resolv_header_vary, headers_out, connection_header,
  keep_alive_header,
}
use coraza_nginx.HeaderFilter.Filter.{
  list_headers, replay, hand_over, submit_bulk, flush_pairs, flush_collected, submit_list,
  submit_headers, hold_or_send, refuse, response_headers_phase, headers_phase, decide,
  phase_and_decide, passes_on, header_filter, collector,
}
use coraza_nginx.HeaderFilter.Name
use coraza_nginx.HeaderFilter.Value
use coraza_nginx.Life.Inert.{Account, account, Inert}
use coraza_nginx.Life.Polls.{poll_after_process-Inert}

collect_header-Inert :
    (env : Env) (h : Header) (pairs : List Header) → Inert env (collect_header env h pairs)
unfolding collect_header
collect_header-Inert env h pairs s = ground arith

collect_or_submit-Inert :
    (env : Env) (h : Header) (c : Option (List Header)) → Inert env (collect_or_submit env h c)
unfolding collect_or_submit submit_header
collect_or_submit-Inert env h none s = ground arith
collect_or_submit-Inert env h (some pairs) s = collect_header-Inert env h pairs s

add_header-Inert : (env : Env) (h : Header) → Inert env (add_header env h)
unfolding add_header
add_header-Inert env h s = collect_or_submit-Inert env h s.ctx.resp_hdr_collect s

pub and_then-Inert :
    (env : Env) (m next : M ℤ) → Inert env m → Inert env next → Inert env (and_then m next)
and_then-Inert env m next p q s = ground (arith, p s, q (m s).1)

server-Inert : (env : Env) (hd : Head) → Inert env (resolv_header_server env hd)
unfolding resolv_header_server
server-Inert env hd s = add_header-Inert env _ s

date-Inert : (env : Env) (hd : Head) → Inert env (resolv_header_date env hd)
unfolding resolv_header_date
date-Inert env hd s = add_header-Inert env _ s

length_header-Inert : (env : Env) (hd : Head) (n : ℤ) → Inert env (length_header env hd n)
unfolding length_header
length_header-Inert env hd (negsuc n) s = refl
length_header-Inert env hd (pos n) s = add_header-Inert env _ s

content_length-Inert : (env : Env) (hd : Head) → Inert env (resolv_header_content_length env hd)
unfolding resolv_header_content_length
content_length-Inert env hd s = length_header-Inert env hd s.req.out.content_length_n s

content_type-Inert : (env : Env) (hd : Head) → Inert env (resolv_header_content_type env hd)
unfolding resolv_header_content_type
content_type-Inert env hd s =
    let h : Header = record { name = Name.content_type; value = s.req.out.content_type } in
    ground (arith, add_header-Inert env h s)

last_modified-Inert : (env : Env) (hd : Head) → Inert env (resolv_header_last_modified env hd)
unfolding resolv_header_last_modified
last_modified-Inert env hd s =
    let h : Header = record {
      name = Name.last_modified;
      value = hd.http_time s.req.out.last_modified_time;
    } in
    ground (arith, add_header-Inert env h s)

connection-Inert : (env : Env) (hd : Head) → Inert env (resolv_header_connection env hd)
unfolding resolv_header_connection
connection-Inert env hd s =
    let t = (add_header env (keep_alive_header hd) s).1 in
    ground (
      arith,
      add_header-Inert env (connection_header Value.upgrade) s,
      add_header-Inert env (connection_header Value.keep_alive) s,
      add_header-Inert env (connection_header Value.close) s,
      add_header-Inert env (keep_alive_header hd) s,
      add_header-Inert env (connection_header Value.keep_alive) t,
    )

transfer_encoding-Inert :
    (env : Env) (hd : Head) → Inert env (resolv_header_transfer_encoding env hd)
unfolding resolv_header_transfer_encoding
transfer_encoding-Inert env hd s =
    let h : Header = record { name = Name.transfer_encoding; value = Value.chunked } in
    ground (arith, add_header-Inert env h s)

vary-Inert : (env : Env) (hd : Head) → Inert env (resolv_header_vary env hd)
unfolding resolv_header_vary
vary-Inert env hd s =
    let h : Header = record { name = Name.vary; value = Value.accept_encoding } in
    ground (arith, add_header-Inert env h s)

headers_out-Inert : (env : Env) (hd : Head) → Inert env (headers_out env hd)
unfolding headers_out
headers_out-Inert env hd =
    let m₁ = resolv_header_server env hd in
    let m₂ = resolv_header_date env hd in
    let m₃ = resolv_header_content_length env hd in
    let m₄ = resolv_header_content_type env hd in
    let m₅ = resolv_header_last_modified env hd in
    let m₆ = resolv_header_connection env hd in
    let m₇ = resolv_header_transfer_encoding env hd in
    let m₈ = resolv_header_vary env hd in
    let n₇ = and_then m₇ m₈ in
    let n₆ = and_then m₆ n₇ in
    let n₅ = and_then m₅ n₆ in
    let n₄ = and_then m₄ n₅ in
    let n₃ = and_then m₃ n₄ in
    let n₂ = and_then m₂ n₃ in
    and_then-Inert env m₁ n₂ (server-Inert env hd) (
      and_then-Inert env m₂ n₃ (date-Inert env hd) (
        and_then-Inert env m₃ n₄ (content_length-Inert env hd) (
          and_then-Inert env m₄ n₅ (content_type-Inert env hd) (
            and_then-Inert env m₅ n₆ (last_modified-Inert env hd) (
              and_then-Inert env m₆ n₇ (connection-Inert env hd)
                (and_then-Inert env m₇ m₈ (transfer_encoding-Inert env hd) (vary-Inert env hd)))))))

list_headers-Inert :
    (env : Env) (o : HeadersOut) (i : ℕ) (es : List Elt) → Inert env (list_headers env o i es)
unfolding list_headers
list_headers-Inert env o i [] s = refl
list_headers-Inert env o i (e ∷ es) s =
    let rest = list_headers env o (i + 1) es in
    let ih = list_headers-Inert env o (i + 1) es in
    let one = add_header env (header_of e) in
    let both = and_then-Inert env one rest (add_header-Inert env (header_of e)) ih in
    ground (arith, ih s, both s)

replay-Inert : (env : Env) (hs : List Header) → Inert env (replay env hs)
unfolding replay
replay-Inert env [] = λ s. refl
replay-Inert env (h ∷ hs) =
    and_then-Inert env (add_header env h) (replay env hs) (add_header-Inert env h)
      (replay-Inert env hs)

hand_over-Inert : (env : Env) (n : ℕ) (p : Option Packed) → Inert env (hand_over env n p)
unfolding hand_over
hand_over-Inert env n none s = refl
hand_over-Inert env n (some p) s = refl

pub log_pack-Inert :
    (env : Env) (n : Option ℕ) (s : State) → account env (log_pack n s) ≡ account env s
log_pack-Inert env none s = refl
log_pack-Inert env (some n) s = ground arith

submit_bulk-Inert : (env : Env) (hs : List Header) → Inert env (submit_bulk env hs)
unfolding submit_bulk pack
submit_bulk-Inert env [] s = refl
submit_bulk-Inert env (h ∷ hs) s =
    let r = pack env (h ∷ hs) s in
    hand_over-Inert env (length (h ∷ hs)) r.0 r.1 ∙ log_pack-Inert env (packed_size 0 (h ∷ hs)) s

flush_pairs-Inert : (env : Env) (c : Option (List Header)) → Inert env (flush_pairs env c)
unfolding flush_pairs
flush_pairs-Inert env none s = refl
flush_pairs-Inert env (some pairs) s =
    let t : State = record s { ctx = record (s.ctx) { resp_hdr_collect = none } } in
    let u = (submit_bulk env pairs t).1 in
    ground (arith, submit_bulk-Inert env pairs t, replay-Inert env pairs u)

submit_headers-Inert : (env : Env) (hd : Head) → Inert env (submit_headers env hd)
unfolding submit_headers submit_list flush_collected
submit_headers-Inert env hd =
    let next = and_then (submit_list env) (flush_collected env) in
    and_then-Inert env (headers_out env hd) next (headers_out-Inert env hd) (
      and_then-Inert env (submit_list env) (flush_collected env)
        (λ s. list_headers-Inert env s.req.out 0 s.req.out.headers s)
        (λ s. flush_pairs-Inert env s.ctx.resp_hdr_collect s))

decide-Inert : (env : Env) (hd : Head) (ret : ℤ) → Inert env (decide env hd ret)
unfolding decide refuse hold_or_send forward_header prepare_redirect
decide-Inert env hd ret s = ground arith

abbrev phase_run : Account → Account
phase_run a = record a { response_phases = suc a.response_phases }

headers_phase-account :
    (env : Env) (hd : Head) (s : State)
    → account env (headers_phase env hd s).1
      ≡ record (account env s) { response_phases = suc (account env s).response_phases }
unfolding headers_phase response_headers_phase
headers_phase-account env hd s =
    let r = response_headers_phase env hd s in poll_after_process-Inert env r.0 r.1

phase_and_decide-account :
    (env : Env) (hd : Head) (s : State)
    → account env (phase_and_decide env hd s).1
      ≡ record (account env s) { response_phases = suc (account env s).response_phases }
unfolding phase_and_decide
phase_and_decide-account env hd s =
    let r = headers_phase env hd s in decide-Inert env hd r.0 r.1 ∙ headers_phase-account env hd s

-- What the filter does to the account: nothing, or the header is marked and phase 3 run once, or
-- not at all.
pub data Filtered (a b : Account) : Type 0 where
  passed : b ≡ a → Filtered a b
  stopped :
      a.attached ≡ true → a.processed ≡ false → b ≡ record a { processed = true } → Filtered a b
  inspected :
      a.attached ≡ true
      → a.processed ≡ false
      → b ≡ record a { processed = true; response_phases = suc a.response_phases }
      → Filtered a b

marked : Env → State → State
marked env s = record s {
  trace = array_create ∷ s.trace;
  ctx = record (s.ctx) {
    processed = true;
    resp_hdr_collect = collector (env.allocates (array_create ∷ s.trace));
  };
}

passes_on-false :
    (s : State) → passes_on s ≡ false → (s.attached ≡ true) × (s.ctx.processed ≡ false)
unfolding passes_on
passes_on-false s e = ground (arith, e)

pub header_filter-Filtered :
    (env : Env) (hd : Head) (s : State)
    → Filtered (account env s) (account env (header_filter env hd s).1)
unfolding header_filter forward_header marked
header_filter-Filtered env hd s = elim (Bool-cases (passes_on s)) [
  | inl p ↦ rw p (passed refl)
  | inr p ↦
      let (at, fresh) = passes_on-false s p in
      let t = marked env s in
      let r = submit_headers env hd t in
      let sub = submit_headers-Inert env hd t in
      let last = phase_and_decide-account env hd r.1 in
      elim (Bool-cases (eq_code ngx_ok r.0)) [
        | inl o ↦ rw (p, o) (inspected at fresh (last ∙ ap phase_run sub))
        | inr o ↦ rw (p, o) (stopped at fresh sub)
      ]
]
