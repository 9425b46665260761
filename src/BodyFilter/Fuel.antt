-- ===== src/BodyFilter/Fuel.antt =====
-- The fuel of the loop over a file buffer (src/ngx_http_coraza_body_filter.c) never stops it.
use coraza_nginx.Common.{
  ℕ, zero, suc, ◌+◌, ◌≤◌, ◌<◌, ◌≡◌, refl, ap, ◌∙◌, ℤ, ngx_ok, ltb, [], ◌∷◌, length, if◌then◌else◌,
  arith,
}
use coraza_nginx.Runtime.{
  Env, State, M, Read, failed, got, log_call, append_response_body, read_file,
}
use coraza_nginx.BodyFilter.File.{response_chunk, response_loop, response_round}

response_chunk-next :
    (env : Env) (offset : ℕ) (next more : ℕ → M ℤ) (r : Read) (s : State)
    → ((o : ℕ) (t : State) → offset < o → next o t ≡ more o t)
    → response_chunk env offset next r s ≡ response_chunk env offset more r s
unfolding response_chunk
response_chunk-next env offset next more failed s h = refl
response_chunk-next env offset next more (got []) s h = refl
response_chunk-next env offset next more (got (b ∷ bs)) s h =
    let t = log_call (append_response_body (b ∷ bs)) s in
    ground (arith, h (offset + length (b ∷ bs)) t (omega arith))

-- From any offset, fuel for the bytes that are left gives what any more fuel gives: the loop ends
-- by its own condition or an error, and never for want of fuel.
pub response_loop-fuel :
    (env : Env) (fd file_last fuel more offset : ℕ) (s : State)
    → file_last ≤ offset + fuel
    → response_loop env fd file_last (more + fuel) offset s
      ≡ response_loop env fd file_last fuel offset s
unfolding response_loop
response_loop-fuel env fd file_last zero zero offset s b = refl
response_loop-fuel env fd file_last zero (suc more) offset s b = ground arith
response_loop-fuel env fd file_last (suc fuel) more offset s b =
    let c = read_file fd (response_round file_last offset) offset in
    let r = env.reads (c ∷ s.trace) in
    let less : ℕ → M ℤ = response_loop env fd file_last fuel in
    let rich : ℕ → M ℤ = response_loop env fd file_last (more + fuel) in
    let one_more : more + suc fuel ≡ suc (more + fuel) = omega arith in
    ap (λ k. response_loop env fd file_last k offset s) one_more
    ∙ ap (λ x. if ltb offset file_last then x else (ngx_ok, s))
        (response_chunk-next env offset rich less r (log_call c s)
          (λ o t after. response_loop-fuel env fd file_last fuel more o t (omega arith)))
