-- ===== src/BodyFilter/Still.antt =====
-- What reading and submitting a buffer leave alone.
use coraza_nginx.Common.{ℕ, zero, suc, ◌+◌, ◌-◌, ◌≡◌, ℤ, Option, [], ◌∷◌, ◌++◌, length, arith}
use coraza_nginx.Pack.{Bytes}
use coraza_nginx.Runtime.{
  Buf, Env, Read, failed, got, State, M, log_call, count, is_forward, is_body_forward,
  is_process_response_body, append_response_body, read_file, pnalloc, directio_off,
}
use coraza_nginx.BodyFilter.File.{
  read_chunk, read_range, read_body_data, response_chunk, response_loop, response_round,
  direct_loop, body_chunk_len,
}

abbrev pub forwards : State → ℕ
forwards s = count is_forward s.trace

abbrev pub body_forwards : State → ℕ
body_forwards s = count is_body_forward s.trace

-- Phase 4 runs.
abbrev pub last_phases : State → ℕ
last_phases s = count is_process_response_body s.trace

-- Nothing was sent and phase 4 not run, and the context and the error page are the same.
pub record Still (s t : State) : Type 0 where
  pub same_forwards : forwards t ≡ forwards s
  pub same_body_forwards : body_forwards t ≡ body_forwards s
  pub same_phases : last_phases t ≡ last_phases s
  pub same_error_page : t.req.error_page ≡ s.req.error_page
  pub same_ctx : t.ctx ≡ s.ctx

response_chunk-Still :
    (env : Env) (offset : ℕ) (next : ℕ → M ℤ) (r : Read) (s : State)
    → ((o : ℕ) (t : State) → Still t (next o t).1)
    → Still s (response_chunk env offset next r s).1
unfolding response_chunk
response_chunk-Still env offset next failed s h = ground arith
response_chunk-Still env offset next (got []) s h = ground arith
response_chunk-Still env offset next (got (b ∷ bs)) s h =
    ground (arith, h (offset + length (b ∷ bs)) (log_call (append_response_body (b ∷ bs)) s))

response_loop-Still :
    (env : Env) (fd file_last fuel offset : ℕ) (s : State)
    → Still s (response_loop env fd file_last fuel offset s).1
unfolding response_loop
response_loop-Still env fd file_last zero offset s = ground arith
response_loop-Still env fd file_last (suc fuel) offset s =
    let c = read_file fd (response_round file_last offset) offset in
    ground (
      arith,
      response_chunk-Still env offset (response_loop env fd file_last fuel)
          (env.reads (c ∷ s.trace)) (log_call c s) (response_loop-Still env fd file_last fuel),
    )

pub direct_loop-Still : (env : Env) (b : Buf) (s : State) → Still s (direct_loop env b s).1
unfolding direct_loop
direct_loop-Still env b s =
    let run = response_loop-Still env b.fd b.file_last (b.file_last - b.file_pos) b.file_pos in
    ground (arith, run s, run (log_call directio_off s))

read_chunk-Still :
    (remaining offset : ℕ) (acc : Bytes) (next : ℕ → ℕ → Bytes → M (Option Bytes)) (r : Read)
    (s : State)
    → ((m o : ℕ) (a : Bytes) (t : State) → Still t (next m o a t).1)
    → Still s (read_chunk remaining offset acc next r s).1
unfolding read_chunk
read_chunk-Still remaining offset acc next failed s h = ground arith
read_chunk-Still remaining offset acc next (got []) s h = ground arith
read_chunk-Still remaining offset acc next (got (b ∷ bs)) s h =
    h (remaining - length (b ∷ bs)) (offset + length (b ∷ bs)) (acc ++ (b ∷ bs)) s

read_range-Still :
    (env : Env) (fd fuel remaining offset : ℕ) (acc : Bytes) (s : State)
    → Still s (read_range env fd fuel remaining offset acc s).1
unfolding read_range
read_range-Still env fd zero remaining offset acc s = ground arith
read_range-Still env fd (suc fuel) remaining offset acc s =
    let c = read_file fd remaining offset in
    ground (
      arith,
      read_chunk-Still remaining offset acc (read_range env fd fuel) (env.reads (c ∷ s.trace))
          (log_call c s) (read_range-Still env fd fuel),
    )

pub read_body_data-Still : (env : Env) (b : Buf) (s : State) → Still s (read_body_data env b s).1
unfolding read_body_data
read_body_data-Still env b s =
    let n = body_chunk_len b in
    ground (arith, read_range-Still env b.fd n n b.file_pos [] (log_call (pnalloc n) s))
