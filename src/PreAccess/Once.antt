-- ===== src/PreAccess/Once.antt =====
-- Phase 2 over any number of entries into the handler.
use coraza_nginx.Common.{
  ℕ, zero, suc, ◌+◌, ◌≤◌, ◌≡◌, ℤ, true, false, is_num, Option, none, some, List, [], ◌∷◌, replicate,
  ngx_ok, if◌then◌else◌, arith,
}
use coraza_nginx.Runtime.{
  Buf, Env, Trace, State, RequestBody, log_call, process_request_body, request_body_accessible,
  read_client_request_body,
}
use coraza_nginx.Logging.{is_enabled}
use coraza_nginx.Intervention.{process_intervention, poll_after_process}
use coraza_nginx.Intervention.Frame.{process_intervention-Quiet}
use coraza_nginx.PreAccess.{
  request_read, react, process_request_body_phase, append_request_body_file, walk, finish_body,
  submit_parts, submit_body, inspect_body, request_body_step, pre_access_handler,
}
use coraza_nginx.PreAccess.FileFrame.{append_request_body_file-Framed}
use coraza_nginx.PreAccess.Verdict.{sent}
use coraza_nginx.PreAccess.Body.{phases, marked, Round, refused, last, polled, walk-Round}

-- Phase 2 runs at most once, and the flag that keeps the body from a second submission stays.
record AtMostOnce (s t : State) : Type 0 where
  once : phases t ≤ suc (phases s)
  kept : t.ctx.body_submitted ≡ s.ctx.body_submitted

phase-AtMostOnce : (env : Env) (s : State) → AtMostOnce s (process_request_body_phase env s).1
unfolding process_request_body_phase react poll_after_process
phase-AtMostOnce env s =
    ground (arith, process_intervention-Quiet env false (log_call process_request_body s))

finish_body-AtMostOnce : (env : Env) (s : State) → AtMostOnce s (finish_body env s).1
unfolding finish_body react
finish_body-AtMostOnce env s =
    let s₁ = (process_intervention env false s).1 in
    ground (arith, process_intervention-Quiet env false s, phase-AtMostOnce env s₁)

sent-same :
    (b : Buf) (s : State)
    → (phases (sent b s) ≡ phases s) × ((sent b s).ctx.body_submitted ≡ s.ctx.body_submitted)
sent-same b s = ground arith

round-AtMostOnce :
    (env : Env) (b : Buf) (bs : List Buf) (s : State) (r : ℤ × State)
    → ((t : State) → AtMostOnce t (walk env bs (finish_body env) t).1)
    → Round env (finish_body env) b bs s r
    → AtMostOnce s r.1
unfolding react
round-AtMostOnce env b bs s r ih (refused p q n) = record { once = omega arith; kept = n }
round-AtMostOnce env b bs s r ih (last l p) =
    ground (arith, sent-same b s, finish_body-AtMostOnce env (sent b s))
round-AtMostOnce env b bs s r ih (polled l p) =
    let s₁ = sent b s in
    ground (
      arith,
      sent-same b s,
      process_intervention-Quiet env false s₁,
      ih (process_intervention env false s₁).1,
    )

walk-AtMostOnce :
    (env : Env) (bs : List Buf) (s : State) → AtMostOnce s (walk env bs (finish_body env) s).1
unfolding walk
walk-AtMostOnce env [] s = finish_body-AtMostOnce env s
walk-AtMostOnce env (b ∷ bs) s =
    round-AtMostOnce env b bs s _ (walk-AtMostOnce env bs) (walk-Round env (finish_body env) b bs s)

parts-AtMostOnce :
    (env : Env) (bufs : List Buf) (size : Option ℤ) (s : State)
    → AtMostOnce s (submit_parts env bufs size s).1
unfolding submit_parts
parts-AtMostOnce env bufs none s = walk-AtMostOnce env bufs s
parts-AtMostOnce env bufs (some size) s =
    let s₁ = (append_request_body_file env size s).1 in
    ground (arith, append_request_body_file-Framed env size s, finish_body-AtMostOnce env s₁)

-- How many runs of phase 2 the flag still lets through.
abbrev allowance : State → ℕ
allowance s = if s.ctx.body_submitted then 0 else 1

submit_body-allowance :
    (env : Env) (b : Option RequestBody) (s : State)
    → s.ctx.body_submitted ≡ false
    → phases (submit_body env b s).1 + allowance (submit_body env b s).1 ≤ phases s + allowance s
unfolding submit_body
submit_body-allowance env none s n = ground arith
submit_body-allowance env (some b) s n =
    ground (arith, parts-AtMostOnce env b.bufs b.temp_file (marked s))

inspect_body-allowance :
    (env : Env) (s : State)
    → phases (inspect_body env s).1 + allowance (inspect_body env s).1 ≤ phases s + allowance s
unfolding inspect_body
inspect_body-allowance env s = ground (arith, submit_body-allowance env s.req.request_body s)

-- The engine says that the body's bytes are accessible.
abbrev pub Accessible : Env → Type 0
Accessible env = (t : Trace) → is_num 0 (env.results (request_body_accessible ∷ t)) ≡ false

-- The request when nginx has answered the handler's call for the body.
abbrev pub asked : Env → State → State
asked env s =
    let t = read_client_request_body ∷ request_body_accessible ∷ s.trace in
    record s {
      trace = t;
      ctx = record (s.ctx) { body_requested = true };
      req = record (s.req) {
        body_in_persistent_file = true;
        body_in_clean_file = if s.req.body_in_file_only then s.req.body_in_clean_file else true;
        request_body = env.bodies t;
      };
    }

handler-allowance :
    (env : Env) (s : State)
    → Accessible env
    → phases (pre_access_handler env s).1 + allowance (pre_access_handler env s).1
      ≤ phases s + allowance s
unfolding pre_access_handler request_body_step
handler-allowance env s acc =
    ground
      (arith, acc s.trace, inspect_body-allowance env s, inspect_body-allowance env (asked env s))

-- What nginx may do with the request in this phase: enter the handler, from the phase engine or
-- again after another module, or call the post handler when the body has arrived.
pub data Visit : Type 0 where
  enters arrives : Visit

unfoldable pub visit : Env → Visit → State → State
visit env enters s = (pre_access_handler env s).1
visit env arrives s = (request_read s).1

unfoldable pub visits : Env → List Visit → State → State
visits env [] s = s
visits env (v ∷ vs) s = visits env vs (visit env v s)

visit-allowance :
    (env : Env) (v : Visit) (s : State)
    → Accessible env
    → phases (visit env v s) + allowance (visit env v s) ≤ phases s + allowance s
unfolding visit request_read
visit-allowance env enters s acc = handler-allowance env s acc
visit-allowance env arrives s acc = ground arith

visits-allowance :
    (env : Env) (vs : List Visit) (s : State)
    → Accessible env
    → phases (visits env vs s) + allowance (visits env vs s) ≤ phases s + allowance s
unfolding visits
visits-allowance env [] s acc = omega arith
visits-allowance env (v ∷ vs) s acc =
    omega (arith, visit-allowance env v s acc, visits-allowance env vs (visit env v s) acc)

-- Where the engine wants the body, phase 2 is run at most once for a request, however often and in
-- whatever order nginx enters the handler and reports the body.
pub visits-once :
    (env : Env) (vs : List Visit) (s : State)
    → Accessible env
    → phases (visits env vs s) ≤ phases s + 1
visits-once env vs s acc = ground (arith, visits-allowance env vs s acc)

-- A request that is inspected by the connector, is not refused and waits for nothing.
pub record Open (s : State) : Type 0 where
  pub on : is_enabled s.mcf ≡ true
  pub context : s.attached ≡ true
  pub not_refused : s.ctx.intervention_triggered ≡ false
  pub not_waiting : s.ctx.waiting_more_body ≡ false
  pub not_requested : s.ctx.body_requested ≡ false

-- The engine says that the body's bytes are not accessible, and its phases pass.
pub record Inaccessible (env : Env) : Type 0 where
  pub closed : (t : Trace) → is_num 0 (env.results (request_body_accessible ∷ t)) ≡ true
  pub passes : (t : Trace) → env.results (process_request_body ∷ t) ≡ ngx_ok

handler-repeats :
    (env : Env) (s : State)
    → Inaccessible env
    → Open s
    → Open (pre_access_handler env s).1 × (phases (pre_access_handler env s).1 ≡ suc (phases s))
unfolding pre_access_handler request_body_step process_request_body_phase react poll_after_process
handler-repeats env s no_access o =
    ground (arith, no_access.closed s.trace, no_access.passes (request_body_accessible ∷ s.trace))

-- Where the engine does not want the body and its phase 2 passes, nothing remembers that phase 2
-- was run: every entry into the handler runs it again.
pub visits_repeat :
    (env : Env) (n : ℕ) (s : State)
    → Inaccessible env
    → Open s
    → phases (visits env (replicate n enters) s) ≡ phases s + n
unfolding visits visit
visits_repeat env zero s no_access o = omega arith
visits_repeat env (suc n) s no_access o =
    let (still, more) = handler-repeats env s no_access o in
    omega (arith, visits_repeat env n (pre_access_handler env s).1 no_access still)
