-- ===== src/PreAccess/Fuel.antt =====
-- The fuel of the loop over a spilled body (src/ngx_http_coraza_pre_access.c) never stops it.
use coraza_nginx.Common.{
  ℕ, zero, suc, ◌+◌, ◌≤◌, ◌<◌, ◌≡◌, refl, ap, ◌∙◌, ℤ, ngx_ok, false, ltb, [], ◌∷◌, length,
  if◌then◌else◌, arith,
}
use coraza_nginx.Runtime.{
  Env, State, M, Read, failed, got, log_call, append_request_body, read_file,
}
use coraza_nginx.Intervention.{process_intervention}
use coraza_nginx.PreAccess.{file_chunk, file_loop, round_size}

-- A round that goes on does so behind the offset.
file_chunk-next :
    (env : Env) (body_size offset : ℕ) (next more : ℕ → M ℤ) (r : Read) (s : State)
    → ((o : ℕ) (t : State) → offset < o → next o t ≡ more o t)
    → file_chunk env body_size offset next r s ≡ file_chunk env body_size offset more r s
unfolding file_chunk
file_chunk-next env body_size offset next more failed s h = refl
file_chunk-next env body_size offset next more (got []) s h = refl
file_chunk-next env body_size offset next more (got (b ∷ bs)) s h =
    let s₁ = log_call (append_request_body (b ∷ bs)) s in
    let s₂ = (process_intervention env false s₁).1 in
    let o = offset + length (b ∷ bs) in ground (arith, h o s₁ (omega arith), h o s₂ (omega arith))

-- From any offset, fuel for the bytes that are left gives what any more fuel gives: the loop ends
-- by its own condition, an error or a denial, and never for want of fuel.
pub file_loop-fuel :
    (env : Env) (fd body_size fuel more offset : ℕ) (s : State)
    → body_size ≤ offset + fuel
    → file_loop env fd body_size (more + fuel) offset s ≡ file_loop env fd body_size fuel offset s
unfolding file_loop
file_loop-fuel env fd body_size zero zero offset s b = refl
file_loop-fuel env fd body_size zero (suc more) offset s b = ground arith
file_loop-fuel env fd body_size (suc fuel) more offset s b =
    let c = read_file fd (round_size body_size offset) offset in
    let r = env.reads (c ∷ s.trace) in
    let less : ℕ → M ℤ = file_loop env fd body_size fuel in
    let rich : ℕ → M ℤ = file_loop env fd body_size (more + fuel) in
    let one_more : more + suc fuel ≡ suc (more + fuel) = omega arith in
    ap (λ k. file_loop env fd body_size k offset s) one_more
    ∙ ap (λ x. if ltb offset body_size then x else (ngx_ok, s))
        (file_chunk-next env body_size offset rich less r (log_call c s)
          (λ o t after. file_loop-fuel env fd body_size fuel more o t (omega arith)))
