-- ===== src/Life/Bodies.antt =====
-- The body filter (src/ngx_http_coraza_body_filter.c) keeps the account.
use coraza_nginx.Common.{
  ℕ, zero, suc, ◌+◌, ◌-◌, refl, ℤ, true, false, Option, none, some, List, [], ◌∷◌, length,
  internal_server_error, arith,
}
use coraza_nginx.Pack.{Bytes}
use coraza_nginx.Runtime.{
  Env, State, Buf, Read, failed, got, M, log_call, process_response_body, append_response_body,
  read_file, pnalloc, alloc_chunk, directio_off, alloc_chain_link, calloc_buf,
}
use coraza_nginx.Intervention.{process_intervention, poll_after_process}
use coraza_nginx.Redirect.{forward_header, prepare_redirect}
use coraza_nginx.BodyFilter.File.{
  file_range, body_chunk_len, read_chunk, read_range, read_body_data, response_chunk,
  response_round, response_loop, direct_loop, append_response_body_file,
}
use coraza_nginx.BodyFilter.Stages.{
  Flow, pass_chain, consume, finalize, internal_error, react_filter, submit_bytes, submit_buf,
  then_go, inspect_stage, phase_stage,
}
use coraza_nginx.BodyFilter.Filter.{
  copied, hold, copy_buf, delay_stage, filter_loop, flush_pending, after_loop, settle_flow,
  filter_chain, body_filter,
}
use coraza_nginx.Life.Inert.{Inert}
use coraza_nginx.Life.Polls.{process_intervention-Inert, poll_after_process-Inert}

read_chunk-Inert :
    (env : Env) (remaining offset : ℕ) (acc : Bytes) (next : ℕ → ℕ → Bytes → M (Option Bytes))
    (r : Read)
    → ((n o : ℕ) (bs : Bytes) → Inert env (next n o bs))
    → Inert env (read_chunk remaining offset acc next r)
unfolding read_chunk
read_chunk-Inert env remaining offset acc next failed i s = refl
read_chunk-Inert env remaining offset acc next (got []) i s = refl
read_chunk-Inert env remaining offset acc next (got (b ∷ bs)) i s = i _ _ _ s

read_range-Inert :
    (env : Env) (fd fuel remaining offset : ℕ) (acc : Bytes)
    → Inert env (read_range env fd fuel remaining offset acc)
unfolding read_range
read_range-Inert env fd zero remaining offset acc s = refl
read_range-Inert env fd (suc fuel) remaining offset acc s =
    let t = log_call (read_file fd remaining offset) s in
    ground (
      arith,
      read_chunk-Inert env remaining offset acc (read_range env fd fuel) (env.reads t.trace)
          (read_range-Inert env fd fuel) t,
    )

read_body_data-Inert : (env : Env) (b : Buf) → Inert env (read_body_data env b)
unfolding read_body_data
read_body_data-Inert env b s =
    let n = body_chunk_len b in
    let t = log_call (pnalloc n) s in ground (arith, read_range-Inert env b.fd n n b.file_pos [] t)

response_chunk-Inert :
    (env : Env) (offset : ℕ) (next : ℕ → M ℤ) (r : Read)
    → ((o : ℕ) → Inert env (next o))
    → Inert env (response_chunk env offset next r)
unfolding response_chunk
response_chunk-Inert env offset next failed i s = refl
response_chunk-Inert env offset next (got []) i s = refl
response_chunk-Inert env offset next (got (b ∷ bs)) i s =
    let t = log_call (append_response_body (b ∷ bs)) s in
    ground (arith, i (offset + length (b ∷ bs)) t)

response_loop-Inert :
    (env : Env) (fd file_last fuel offset : ℕ)
    → Inert env (response_loop env fd file_last fuel offset)
unfolding response_loop
response_loop-Inert env fd file_last zero offset s = refl
response_loop-Inert env fd file_last (suc fuel) offset s =
    let t = log_call (read_file fd (response_round file_last offset) offset) s in
    ground (
      arith,
      response_chunk-Inert env offset (response_loop env fd file_last fuel) (env.reads t.trace)
          (response_loop-Inert env fd file_last fuel) t,
    )

direct_loop-Inert : (env : Env) (b : Buf) → Inert env (direct_loop env b)
unfolding direct_loop
direct_loop-Inert env b s =
    let t = log_call directio_off s in
    let n = b.file_last - b.file_pos in
    ground (
      arith,
      response_loop-Inert env b.fd b.file_last n b.file_pos s,
      response_loop-Inert env b.fd b.file_last n b.file_pos t,
    )

append_response_body_file-Inert :
    (env : Env) (b : Buf) → Inert env (append_response_body_file env b)
unfolding append_response_body_file
append_response_body_file-Inert env b s =
    let t = log_call alloc_chunk s in ground (arith, direct_loop-Inert env b t)

finalize-Inert : (env : Env) (status : ℤ) → Inert env (finalize env status)
unfolding finalize prepare_redirect consume forward_header
finalize-Inert env status s = ground arith

internal_error-Inert : (env : Env) → Inert env (internal_error env)
unfolding internal_error
internal_error-Inert env s =
    let t : State = record s { ctx = record (s.ctx) { intervention_triggered = true } } in
    finalize-Inert env internal_server_error t

react_filter-Inert : (env : Env) (ret : ℤ) → Inert env (react_filter env ret)
unfolding react_filter pass_chain
react_filter-Inert env ret s =
    let t : State = record s { ctx = record (s.ctx) { intervention_triggered = true } } in
    ground (arith, finalize-Inert env ret t, internal_error-Inert env s)

submit_bytes-Inert : (env : Env) (b : Option Bytes) → Inert env (submit_bytes env b)
unfolding submit_bytes
submit_bytes-Inert env none s = internal_error-Inert env s
submit_bytes-Inert env (some b) s =
    let t = log_call (append_response_body b) s in ground (arith, internal_error-Inert env t)

submit_buf-Inert : (env : Env) (b : Buf) → Inert env (submit_buf env b)
unfolding submit_buf
submit_buf-Inert env b s =
    let t = (append_response_body_file env b s).1 in
    let r = read_body_data env b s in
    ground (
      arith,
      append_response_body_file-Inert env b s,
      finalize-Inert env internal_server_error t,
      internal_error-Inert env s,
      read_body_data-Inert env b s,
      submit_bytes-Inert env r.0 r.1,
    )

inspect_stage-Inert : (env : Env) (b : Buf) → Inert env (inspect_stage env b)
unfolding inspect_stage
inspect_stage-Inert env b s =
    let t = (submit_buf env b s).1 in
    let r = process_intervention env false t in
    ground (
      arith,
      submit_buf-Inert env b s,
      process_intervention-Inert env t,
      react_filter-Inert env r.0 r.1,
    )

phase_stage-Inert : (env : Env) (b : Buf) → Inert env (phase_stage env b)
unfolding phase_stage
phase_stage-Inert env b s =
    let t = log_call process_response_body s in
    let pret = env.results t.trace in
    let r = poll_after_process env false pret t in
    ground (
      arith,
      internal_error-Inert env t,
      poll_after_process-Inert env pret t,
      react_filter-Inert env r.0 r.1,
    )

hold-Inert : (env : Env) (copy : Buf) (size i : ℕ) (b : Buf) → Inert env (hold copy size i b)
unfolding hold
hold-Inert env copy size i b s = refl

copy_buf-Inert :
    (env : Env) (bytes : Option Bytes) (i : ℕ) (b : Buf) → Inert env (copy_buf env bytes i b)
unfolding copy_buf
copy_buf-Inert env none i b s = internal_error-Inert env s
copy_buf-Inert env (some bytes) i b s =
    let t = log_call calloc_buf s in
    let u = log_call (pnalloc (length bytes)) t in
    ground (
      arith,
      internal_error-Inert env t,
      internal_error-Inert env u,
      hold-Inert env (copied b bytes) (length bytes) i b u,
      hold-Inert env (copied b bytes) 0 i b t,
    )

delay_stage-Inert : (env : Env) (i : ℕ) (b : Buf) → Inert env (delay_stage env i b)
unfolding delay_stage
delay_stage-Inert env i b s =
    let t = log_call alloc_chain_link s in
    let u = log_call calloc_buf t in
    let r = read_body_data env b t in
    ground (
      arith,
      internal_error-Inert env t,
      internal_error-Inert env u,
      hold-Inert env (record b { last_buf = false }) (file_range b) i b u,
      read_body_data-Inert env b t,
      copy_buf-Inert env r.0 i b r.1,
    )

then_go-Inert :
    (env : Env) (m next : M Flow) → Inert env m → Inert env next → Inert env (then_go m next)
then_go-Inert env m next p q s = ground (arith, p s, q (m s).1)

filter_loop-Inert : (env : Env) (i : ℕ) (bs : List Buf) → Inert env (filter_loop env i bs)
unfolding filter_loop
filter_loop-Inert env i [] = λ s. refl
filter_loop-Inert env i (b ∷ bs) =
    let rest = filter_loop env (i + 1) bs in
    let held = then_go (delay_stage env i b) rest in
    then_go-Inert env (inspect_stage env b) (then_go (phase_stage env b) held)
      (inspect_stage-Inert env b)
      (then_go-Inert env (phase_stage env b) held (phase_stage-Inert env b) (
        then_go-Inert env (delay_stage env i b) rest (delay_stage-Inert env i b)
          (filter_loop-Inert env (i + 1) bs)))

after_loop-Inert : (env : Env) (bs : List Buf) → Inert env (after_loop env bs)
unfolding after_loop flush_pending pass_chain forward_header
after_loop-Inert env bs s = ground arith

filter_chain-Inert : (env : Env) (bs : List Buf) → Inert env (filter_chain env bs)
unfolding filter_chain settle_flow
filter_chain-Inert env bs s =
    let t = (filter_loop env 0 bs s).1 in
    ground (arith, filter_loop-Inert env 0 bs s, after_loop-Inert env bs t)

pub body_filter-Inert : (env : Env) → Inert env (body_filter env)
unfolding body_filter consume pass_chain
body_filter-Inert env s = ground (arith, filter_chain-Inert env s.chain s)
