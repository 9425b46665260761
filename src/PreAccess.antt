-- ===== src/PreAccess.antt =====
-- src/ngx_http_coraza_pre_access.c: the request body goes to the engine, and phase 2 runs.
pub mod FileBody
pub mod FileFrame
pub mod Once
pub mod Fuel
pub mod Verdict
pub mod Body
pub mod Served
mod Examples
use coraza_nginx.Common.{
  ℕ, zero, suc, ◌+◌, ◌-◌, ℤ, pos, negsuc, Bool, true, false, not, ◌||◌, ltb, leb, is_neg, is_pos,
  is_num, eq_code, is_special_response, ◌==◌, ngx_ok, ngx_error, ngx_again, ngx_done, ngx_declined,
  internal_server_error, Option, none, some, List, [], ◌∷◌, length, if◌then◌else◌,
}
use coraza_nginx.Pack.{int_max}
use coraza_nginx.Runtime.{
  Buf, Env, Read, failed, got, RequestBody, State, M, pure, branch, ◌>>=◌, ◌>>◌, get, call, ask,
  read_at, receive_body, set_ctx, set_req, trigger, append_request_body, process_request_body,
  request_body_accessible, read_client_request_body, open_file, close_file,
}
use coraza_nginx.Logging.{is_enabled}
use coraza_nginx.Intervention.{process_intervention, process_body_failed, poll_after_process}

abbrev pub chunk_size : ℕ
chunk_size = 65536

-- `ngx_http_coraza_request_read`, the post handler; the answer says whether it runs the phases.
unfoldable pub request_read : M Bool
request_read = do
  set_req (λ r. record r { main_count = r.main_count - 1 })
  s ← get
  branch s.ctx.waiting_more_body
      (do
        set_ctx (λ c. record c { waiting_more_body = false })
        set_req (λ r. record r { runs_phases_on_write = true })
        pure true)
      (pure false)

-- What follows a poll that answered `ret`, and is not followed by `continue`, at each poll site.
unfoldable pub react : ℤ → M ℤ → M ℤ
react ret continue = do
  s ← get
  branch s.req.error_page (pure ngx_declined) (
      branch (is_neg ret) (do trigger; pure internal_server_error)
        (branch (is_pos ret) (do trigger; pure ret) continue))

unfoldable pub process_request_body_phase : Env → M ℤ
unfolding react process_body_failed
process_request_body_phase env = do
  pret ← ask env process_request_body
  branch (process_body_failed pret) (do trigger; pure internal_server_error)
      (do ret ← poll_after_process env false pret; react ret (pure ngx_declined))

-- The rest of one round of the file loop: what is done with a chunk that was read at `offset`.
-- `next` goes on at another offset.
unfoldable pub file_chunk : Env → ℕ → ℕ → (ℕ → M ℤ) → Read → M ℤ
file_chunk env body_size offset next failed = pure internal_server_error
file_chunk env body_size offset next (got []) = pure internal_server_error
file_chunk env body_size offset next (got (b ∷ bs)) =
    let offset' = offset + length (b ∷ bs) in
    do
      rc ← ask env (append_request_body (b ∷ bs))
      branch (not (is_num 0 rc)) (pure internal_server_error) (
          branch (ltb offset' body_size)
            (do
              ret ← process_intervention env false
              s ← get
              branch s.req.error_page (pure ngx_declined) (
                  branch (is_neg ret) (pure internal_server_error)
                    (branch (is_pos ret) (do trigger; pure ret) (next offset'))))
            (next offset'))

abbrev pub round_size : ℕ → ℕ → ℕ
round_size body_size offset =
    if ltb chunk_size (body_size - offset) then chunk_size else body_size - offset

-- The loop on fuel. Each round reads at least a byte, so `body_size` rounds are enough: without
-- fuel left the offset has reached the end.
unfoldable pub file_loop : Env → ℕ → ℕ → ℕ → ℕ → M ℤ
file_loop env fd body_size zero offset = pure ngx_ok
file_loop env fd body_size (suc fuel) offset =
    branch (ltb offset body_size)
      (do
        r ← read_at env fd (round_size body_size offset) offset
        file_chunk env body_size offset (file_loop env fd body_size fuel) r)
      (pure ngx_ok)

-- The loop and what follows it, once the file is open.
unfoldable pub read_file_body : Env → ℕ → ℕ → M ℤ
read_file_body env fd body_size = do
  rc ← file_loop env fd body_size body_size 0
  call close_file
  branch (eq_code ngx_ok rc || eq_code ngx_declined rc) (pure rc) (do trigger; pure rc)

-- A negative descriptor is NGX_INVALID_FILE.
unfoldable pub opened : Env → ℕ → ℤ → M ℤ
unfolding read_file_body
opened env body_size (negsuc n) = do trigger; pure internal_server_error
opened env body_size (pos fd) = read_file_body env fd body_size

unfoldable pub append_request_body_file : Env → ℤ → M ℤ
unfolding opened
append_request_body_file env (negsuc n) = do trigger; pure internal_server_error
append_request_body_file env (pos body_size) =
    branch (body_size == 0) (pure ngx_ok) (do fd ← ask env open_file; opened env body_size fd)

-- The walk over the chain in memory; `continue` is what follows the loop.
unfoldable pub walk : Env → List Buf → M ℤ → M ℤ
walk env [] continue = continue
walk env (b ∷ bs) continue =
    branch (ltb int_max (length b.bytes)) (do trigger; pure internal_server_error)
      (do
        rc ← branch (ltb 0 (length b.bytes)) (ask env (append_request_body b.bytes)) (pure ngx_ok)
        branch (not (is_num 0 rc)) (do trigger; pure internal_server_error)
            (branch b.last_buf continue
              (do ret ← process_intervention env false; react ret (walk env bs continue))))

-- The poll for the body limit, and phase 2.
unfoldable pub finish_body : Env → M ℤ
finish_body env = do
  ret ← process_intervention env false
  react ret (process_request_body_phase env)

unfoldable pub submit_parts : Env → List Buf → Option ℤ → M ℤ
submit_parts env bufs (some size) = do
  rc ← append_request_body_file env size
  branch (not (eq_code ngx_ok rc)) (pure rc) (finish_body env)
submit_parts env bufs none = walk env bufs (finish_body env)

unfoldable pub submit_body : Env → Option RequestBody → M ℤ
unfolding submit_parts
submit_body env none = pure ngx_declined
submit_body env (some b) = do
  set_ctx (λ c. record c { body_submitted = true })
  set_req (λ r. record r { runs_phases_on_write = true })
  submit_parts env b.bufs b.temp_file

unfoldable pub inspect_body : Env → M ℤ
unfolding submit_body
inspect_body env = do
  s ← get
  branch (s.ctx.waiting_more_body || s.ctx.body_submitted) (pure ngx_declined)
      (submit_body env s.req.request_body)

unfoldable pub request_body_step : Env → M ℤ
request_body_step env = do
  accessible ← ask env request_body_accessible
  branch (is_num 0 accessible) (process_request_body_phase env) (do
    set_ctx (λ c. record c { body_requested = true })
    set_req (λ r. record r {
      body_in_persistent_file = true;
      body_in_clean_file = if r.body_in_file_only then r.body_in_clean_file else true;
    })
    rc ← ask env read_client_request_body
    receive_body env
    branch (eq_code ngx_error rc || is_special_response rc) (pure rc) (
        branch (eq_code ngx_again rc)
          (do set_ctx (λ c. record c { waiting_more_body = true }); pure ngx_done)
          (inspect_body env)))

unfoldable pub pre_access_handler : Env → M ℤ
pre_access_handler env = do
  s ← get
  branch (not (is_enabled s.mcf)) (pure ngx_declined) (
      branch (not s.attached) (pure internal_server_error) (
        branch s.ctx.intervention_triggered (pure ngx_declined) (
          branch s.ctx.waiting_more_body (pure ngx_done)
            (branch s.ctx.body_requested (inspect_body env) (request_body_step env)))))
