-- ===== src/Life/Polls.antt =====
-- Polls after the request-headers phase, and the PREACCESS handler
-- (src/ngx_http_coraza_module.c, src/ngx_http_coraza_pre_access.c), keep the account.
use coraza_nginx.Common.{
  ℕ, zero, suc, ◌+◌, refl, ◌∙◌, ℤ, pos, negsuc, true, false, Option, none, some, List, [], ◌∷◌,
  length, ltb, if◌then◌else◌, arith,
}
use coraza_nginx.Runtime.{
  Env, Buf, Read, failed, got, RequestBody, M, log_call, process_request_body,
  request_body_accessible, append_request_body, read_file, open_file,
}
use coraza_nginx.Intervention.{
  process_intervention, settle, deny, install_location, poll_after_process,
}
use coraza_nginx.PreAccess.{
  react, process_request_body_phase, file_chunk, file_loop, round_size, read_file_body, opened,
  append_request_body_file, walk, finish_body, submit_parts, submit_body, inspect_body,
  request_body_step, pre_access_handler, request_read,
}
use coraza_nginx.PreAccess.Once.{asked}
use coraza_nginx.Life.Inert.{Inert}

pub process_intervention-Inert : (env : Env) → Inert env (process_intervention env false)
unfolding process_intervention settle deny install_location
process_intervention-Inert env s = ground arith

pub poll_after_process-Inert :
    (env : Env) (pret : ℤ) → Inert env (poll_after_process env false pret)
unfolding poll_after_process
poll_after_process-Inert env pret s = ground (arith, process_intervention-Inert env s)

react-Inert : (env : Env) (ret : ℤ) (k : M ℤ) → Inert env k → Inert env (react ret k)
unfolding react
react-Inert env ret k i s = ground (arith, i s)

process_request_body_phase-Inert : (env : Env) → Inert env (process_request_body_phase env)
unfolding process_request_body_phase react
process_request_body_phase-Inert env s =
    let t = log_call process_request_body s in
    ground (arith, poll_after_process-Inert env (env.results t.trace) t)

finish_body-Inert : (env : Env) → Inert env (finish_body env)
unfolding finish_body
finish_body-Inert env s =
    let r = process_intervention env false s in
    react-Inert env r.0 (process_request_body_phase env) (process_request_body_phase-Inert env) r.1
    ∙ process_intervention-Inert env s

file_chunk-Inert :
    (env : Env) (size offset : ℕ) (next : ℕ → M ℤ) (r : Read)
    → ((o : ℕ) → Inert env (next o))
    → Inert env (file_chunk env size offset next r)
unfolding file_chunk
file_chunk-Inert env size offset next failed i s = refl
file_chunk-Inert env size offset next (got []) i s = refl
file_chunk-Inert env size offset next (got (b ∷ bs)) i s =
    let t = log_call (append_request_body (b ∷ bs)) s in
    let u = (process_intervention env false t).1 in
    let o = offset + length (b ∷ bs) in
    ground (arith, process_intervention-Inert env t, i o t, i o u)

file_loop-Inert :
    (env : Env) (fd size fuel offset : ℕ) → Inert env (file_loop env fd size fuel offset)
unfolding file_loop
file_loop-Inert env fd size zero offset s = refl
file_loop-Inert env fd size (suc fuel) offset s =
    let c = read_file fd (round_size size offset) offset in
    let t = log_call c s in
    ground (
      arith,
      file_chunk-Inert env size offset (file_loop env fd size fuel) (env.reads t.trace)
          (file_loop-Inert env fd size fuel) t,
    )

opened-Inert : (env : Env) (n : ℕ) (fd : ℤ) → Inert env (opened env n fd)
unfolding opened read_file_body
opened-Inert env n (negsuc k) s = refl
opened-Inert env n (pos fd) s = ground (arith, file_loop-Inert env fd n n 0 s)

append_request_body_file-Inert :
    (env : Env) (size : ℤ) → Inert env (append_request_body_file env size)
unfolding append_request_body_file
append_request_body_file-Inert env (negsuc n) s = refl
append_request_body_file-Inert env (pos n) s =
    let t = log_call open_file s in ground (arith, opened-Inert env n (env.results t.trace) t)

walk-Inert : (env : Env) (bs : List Buf) (k : M ℤ) → Inert env k → Inert env (walk env bs k)
unfolding walk react
walk-Inert env [] k i s = i s
walk-Inert env (b ∷ bs) k i s =
    let t = log_call (append_request_body b.bytes) s in
    let u = if ltb 0 (length b.bytes) then t else s in
    let v = (process_intervention env false u).1 in
    ground (arith, i u, process_intervention-Inert env u, walk-Inert env bs k i v)

submit_parts-Inert :
    (env : Env) (bufs : List Buf) (size : Option ℤ) → Inert env (submit_parts env bufs size)
unfolding submit_parts
submit_parts-Inert env bufs none s = walk-Inert env bufs (finish_body env) (finish_body-Inert env) s
submit_parts-Inert env bufs (some size) s =
    let t = (append_request_body_file env size s).1 in
    ground (arith, append_request_body_file-Inert env size s, finish_body-Inert env t)

submit_body-Inert : (env : Env) (b : Option RequestBody) → Inert env (submit_body env b)
unfolding submit_body
submit_body-Inert env none s = refl
submit_body-Inert env (some b) s = submit_parts-Inert env b.bufs b.temp_file (record s {
  ctx = record (s.ctx) { body_submitted = true };
  req = record (s.req) { runs_phases_on_write = true };
})

inspect_body-Inert : (env : Env) → Inert env (inspect_body env)
unfolding inspect_body
inspect_body-Inert env s = ground (arith, submit_body-Inert env s.req.request_body s)

request_body_step-Inert : (env : Env) → Inert env (request_body_step env)
unfolding request_body_step
request_body_step-Inert env s =
    let t = log_call request_body_accessible s in
    let u = asked env s in
    ground (arith, process_request_body_phase-Inert env t, inspect_body-Inert env u)

pub pre_access_handler-Inert : (env : Env) → Inert env (pre_access_handler env)
unfolding pre_access_handler
pre_access_handler-Inert env s =
    ground (arith, inspect_body-Inert env s, request_body_step-Inert env s)

pub request_read-Inert : (env : Env) → Inert env request_read
unfolding request_read
request_read-Inert env s = ground arith
