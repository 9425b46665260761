-- ===== src/PreAccess/FileFrame.antt =====
-- What the submission of a spilled body leaves alone, and when it yields.
use coraza_nginx.Common.{
  ℕ, zero, suc, ◌+◌, ◌≡◌, ℤ, pos, negsuc, true, false, ngx_declined, [], ◌∷◌, length, arith,
}
use coraza_nginx.Runtime.{
  Env, State, M, Read, failed, got, log_call, count, append_request_body, is_process_request_body,
  read_file, open_file,
}
use coraza_nginx.Intervention.{process_intervention}
use coraza_nginx.Intervention.Frame.{process_intervention-Quiet}
use coraza_nginx.PreAccess.{file_chunk, file_loop, round_size, opened, append_request_body_file}

-- No body phase is run, the request's error page stays as it is, and the answer NGX_DECLINED is
-- given only to a request whose error page is being served.
pub record Framed (s : State) (r : ℤ × State) : Type 0 where
  pub same_phases : count is_process_request_body r.1.trace ≡ count is_process_request_body s.trace
  pub same_error_page : r.1.req.error_page ≡ s.req.error_page
  pub same_submitted : r.1.ctx.body_submitted ≡ s.ctx.body_submitted
  pub yields : r.0 ≡ ngx_declined → s.req.error_page ≡ true

file_chunk-Framed :
    (env : Env) (body_size offset : ℕ) (next : ℕ → M ℤ) (r : Read) (s : State)
    → ((o : ℕ) (t : State) → Framed t (next o t))
    → Framed s (file_chunk env body_size offset next r s)
unfolding file_chunk
file_chunk-Framed env body_size offset next failed s h = ground arith
file_chunk-Framed env body_size offset next (got []) s h = ground arith
file_chunk-Framed env body_size offset next (got (b ∷ bs)) s h =
    let s₁ = log_call (append_request_body (b ∷ bs)) s in
    let s₂ = (process_intervention env false s₁).1 in
    let end = offset + length (b ∷ bs) in
    ground (arith, process_intervention-Quiet env false s₁, h end s₁, h end s₂)

file_loop-Framed :
    (env : Env) (fd body_size fuel offset : ℕ) (s : State)
    → Framed s (file_loop env fd body_size fuel offset s)
unfolding file_loop
file_loop-Framed env fd body_size zero offset s = ground arith
file_loop-Framed env fd body_size (suc fuel) offset s =
    let c = read_file fd (round_size body_size offset) offset in
    let s₁ = log_call c s in
    ground (
      arith,
      file_chunk-Framed env body_size offset (file_loop env fd body_size fuel)
          (env.reads (c ∷ s.trace)) s₁ (file_loop-Framed env fd body_size fuel),
    )

opened-Framed :
    (env : Env) (body_size : ℕ) (fd : ℤ) (s : State) → Framed s (opened env body_size fd s)
unfolding opened
opened-Framed env n (negsuc k) s = ground arith
opened-Framed env n (pos fd) s = ground (arith, file_loop-Framed env fd n n 0 s)

pub append_request_body_file-Framed :
    (env : Env) (size : ℤ) (s : State) → Framed s (append_request_body_file env size s)
unfolding append_request_body_file
append_request_body_file-Framed env (negsuc n) s = ground arith
append_request_body_file-Framed env (pos n) s =
    let t = log_call open_file s in ground (arith, opened-Framed env n (env.results t.trace) t)
