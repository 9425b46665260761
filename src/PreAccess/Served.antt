-- ===== src/PreAccess/Served.antt =====
-- When the loop over a spilled body (src/ngx_http_coraza_pre_access.c) comes to its end.
use coraza_nginx.Common.{
  ℕ, zero, suc, ◌+◌, ◌≤◌, ◌<◌, ◌≡◌, refl, ap, ◌∙◌, ℤ, pos, false, Bool-cases, inl, inr, ltb, ngx_ok,
  none, ◌∷◌, ◌++◌, length, take, arith,
}
use coraza_nginx.Pack.{Bytes}
use coraza_nginx.Runtime.{
  Env, got, State, M, Trace, log_call, intervention, read_file, open_file, append_request_body,
  request_bytes,
}
use coraza_nginx.Intervention.{process_intervention}
use coraza_nginx.PreAccess.FileBody.{ReadsFile, append_request_body_file-Whole}
use coraza_nginx.Intervention.Verdict.{verdict, process_intervention-verdict}
use coraza_nginx.Intervention.Frame.{process_intervention-Quiet}
use coraza_nginx.PreAccess.{
  round_size, file_chunk, file_loop, read_file_body, opened, append_request_body_file,
}

-- The file opens, each read before its end gives some bytes, and the engine takes what it is
-- given and does not intervene.
pub record Serves (env : Env) (size_on_disk : ℕ) : Type 0 where
  pub opens : (t : Trace) → (fd : ℕ) × (env.results (open_file ∷ t) ≡ pos fd)
  pub gives :
      (fd size offset : ℕ) (t : Trace)
      → 0 < size
      → offset < size_on_disk
      → (b : ℕ) × (bs : Bytes) × (env.reads (read_file fd size offset ∷ t) ≡ got (b ∷ bs))
  pub takes : (bs : Bytes) (t : Trace) → env.results (append_request_body bs ∷ t) ≡ pos 0
  pub lets_pass : (t : Trace) → env.interventions t ≡ none

file_chunk-ok :
    (env : Env) (body_size offset n : ℕ) (next : ℕ → M ℤ) (b : ℕ) (bs : Bytes) (s : State)
    → Serves env n
    → s.req.error_page ≡ false
    → ((o : ℕ) (t : State) → t.req.error_page ≡ false → (next o t).0 ≡ ngx_ok)
    → (file_chunk env body_size offset next (got (b ∷ bs)) s).0 ≡ ngx_ok
unfolding file_chunk
file_chunk-ok env body_size offset n next b bs s v e h =
    let s₁ = log_call (append_request_body (b ∷ bs)) s in
    let offset' = offset + length (b ∷ bs) in
    let quiet : (process_intervention env false s₁).0 ≡ ngx_ok =
      process_intervention-verdict env false s₁
      ∙ ap (λ o. verdict o s₁.req.header_sent) (v.lets_pass (intervention ∷ s₁.trace)) in
    ground (
      arith,
      v.takes (b ∷ bs) s.trace,
      quiet,
      process_intervention-Quiet env false s₁,
      h offset' s₁,
      h offset' (process_intervention env false s₁).1,
    )

file_loop-ok :
    (env : Env) (fd body_size n fuel offset : ℕ) (s : State)
    → Serves env n
    → body_size ≤ n
    → s.req.error_page ≡ false
    → (file_loop env fd body_size fuel offset s).0 ≡ ngx_ok
unfolding file_loop
file_loop-ok env fd body_size n zero offset s v le e = refl
file_loop-ok env fd body_size n (suc fuel) offset s v le e =
    elim (Bool-cases (ltb offset body_size)) [
      | inr stop ↦ ground arith
      | inl more ↦
          let size = round_size body_size offset in
          let s₁ = log_call (read_file fd size offset) s in
          let next = file_loop env fd body_size fuel in
          let (b, bs, read) = v.gives fd size offset s.trace (ground arith) (ground arith) in
          let ok =
            file_chunk-ok env body_size offset n next b bs s₁ v e
              (λ o t e'. file_loop-ok env fd body_size n fuel o t v le e') in
          ground (arith, read, ok)
    ]

append_request_body_file-returns :
    (env : Env) (body_size n : ℕ) (s : State)
    → Serves env n
    → body_size ≤ n
    → s.req.error_page ≡ false
    → (append_request_body_file env (pos body_size) s).0 ≡ ngx_ok
unfolding append_request_body_file opened read_file_body
append_request_body_file-returns env body_size n s v le e =
    let t = log_call open_file s in
    let (fd, is_open) = v.opens s.trace in
    ground (arith, is_open, file_loop-ok env fd body_size n body_size 0 t v le e)

-- A spilled body goes through where each part does its work: the file opens and is as long as the
-- body and reads as `content`, each read before its end gives a byte at least, the engine takes each
-- chunk and does not intervene, and no error page is being served. However short the reads are, the
-- loop comes to the end of the body: the engine got its bytes, up to its size and in order.
pub append_request_body_file-ok :
    (env : Env) (content : Bytes) (body_size : ℕ) (s : State)
    → Serves env (length content)
    → ((n : ℕ) → ReadsFile env n content)
    → body_size ≤ length content
    → s.req.error_page ≡ false
    → let r = append_request_body_file env (pos body_size) s in
      (r.0 ≡ ngx_ok) × (request_bytes r.1.trace ≡ request_bytes s.trace ++ take body_size content)
append_request_body_file-ok env content body_size s v file le e =
    let ok = append_request_body_file-returns env body_size (length content) s v le e in
    (ok, (append_request_body_file-Whole env content body_size s file ok).0)
