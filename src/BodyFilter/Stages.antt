-- ===== src/BodyFilter/Stages.antt =====
-- The stages of the filter's loop over the chain. A stage answers `some rc` where the filter
-- returns, and `none` where it goes on.
use coraza_nginx.Common.{
  ℕ, ℤ, Bool, true, false, not, ◌&&◌, ltb, is_neg, is_pos, is_num, eq_code, ngx_ok,
  internal_server_error, Option, none, some, [], map, length,
}
use coraza_nginx.Pack.{Bytes, int_max}
use coraza_nginx.Runtime.{
  Buf, Env, M, pure, branch, ◌>>=◌, ◌>>◌, get, ask, set_ctx, set_chain, trigger,
  append_response_body, process_response_body, next_body_filter, finalize_request,
}
use coraza_nginx.Intervention.{
  is_redirect_status, process_intervention, process_body_failed, poll_after_process,
}
use coraza_nginx.Redirect.{forward_header, prepare_redirect}
use coraza_nginx.BodyFilter.File.{
  is_file_buf, body_chunk_len, consume_buf, read_body_data, append_response_body_file,
}

abbrev pub Flow : Type 0
Flow = Option ℤ

-- `ngx_http_next_body_filter(r, in)`, on the chain as it stands.
unfoldable pub pass_chain : Env → M ℤ
pass_chain env = do s ← get; ask env (next_body_filter s.chain)

unfoldable pub consume : M (Unit {0})
unfolding consume_buf
consume = do s ← get; set_chain (map consume_buf s.chain)

abbrev pub has_location : Option ℕ → Bool
has_location none = false
has_location (some i) = true

unfoldable pub finalize : Env → ℤ → M ℤ
unfolding consume forward_header prepare_redirect is_redirect_status
finalize env status = do
  s ← get
  branch s.ctx.headers_delayed
      (set_ctx (λ c. record c { headers_delayed = false; pending_chain = []; pending_bytes = 0 }))
      (pure tt)
  branch (s.ctx.headers_delayed && (is_redirect_status status && has_location s.req.out.location))
      (do prepare_redirect status; consume; forward_header env) (ask env (finalize_request status))

unfoldable pub internal_error : Env → M Flow
unfolding finalize
internal_error env = do trigger; rc ← finalize env internal_server_error; pure (some rc)

-- What follows a poll that answered `ret`.
unfoldable pub react_filter : Env → ℤ → M Flow
react_filter env ret = do
  s ← get
  branch s.req.error_page (do rc ← pass_chain env; pure (some rc))
      (branch (is_pos ret) (do trigger; rc ← finalize env ret; pure (some rc))
        (branch (is_neg ret) (internal_error env) (pure none)))

-- Submission of bytes that are in memory now.
unfoldable pub submit_bytes : Env → Option Bytes → M Flow
submit_bytes env none = internal_error env
submit_bytes env (some bytes) =
    branch (ltb 0 (length bytes))
      (do
        rc ← ask env (append_response_body bytes)
        branch (is_num 0 rc) (pure none) (internal_error env))
      (pure none)

abbrev pub is_pure_file : Buf → Bool
is_pure_file b = not b.in_memory && is_file_buf b

unfoldable pub submit_buf : Env → Buf → M Flow
submit_buf env b =
    branch (is_pure_file b)
      (do
        rc ← append_response_body_file env b
        branch (eq_code ngx_ok rc) (pure none)
            (do rc' ← finalize env internal_server_error; pure (some rc')))
      (branch (ltb int_max (body_chunk_len b)) (internal_error env)
        (do bytes ← read_body_data env b; submit_bytes env bytes))

-- `next` after a stage that goes on.
abbrev pub resume : Flow → M Flow → M Flow
resume none next s = next s
resume (some rc) next s = (some rc, s)

abbrev pub then_go : M Flow → M Flow → M Flow
then_go m next = do r ← m; resume r next

-- The engine gets the buffer's bytes, if it wants the body.
unfoldable pub inspect_stage : Env → Buf → M Flow
inspect_stage env b = do
  s ← get
  branch s.ctx.response_body_processable
      (then_go (submit_buf env b) (do ret ← process_intervention env false; react_filter env ret))
      (pure none)

-- Phase 4, on the last buffer.
unfoldable pub phase_stage : Env → Buf → M Flow
unfolding process_body_failed
phase_stage env b =
    branch b.last_buf
      (do
        pret ← ask env process_response_body
        branch (process_body_failed pret) (internal_error env)
            (do ret ← poll_after_process env false pret; react_filter env ret))
      (pure none)
