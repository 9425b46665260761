-- ===== src/Intervention/Verdict.antt =====
-- The answer of an intervention poll (src/ngx_http_coraza_module.c), and what it frees.
use coraza_nginx.Common.{
  ℕ, ◌+◌, ◌≡◌, ◌↔◌, ◌⊎◌, ℤ, Bool, false, is_neg, is_num, ngx_ok, ngx_error, internal_server_error,
  Option, none, some, ◌∷◌, if◌then◌else◌, arith,
}
use coraza_nginx.Runtime.{Env, Intervention, State, intervention, count, is_free_intervention}
use coraza_nginx.Intervention.{
  interruption, install_location, deny, process_intervention, poll_after_process,
}
use coraza_nginx.Logging.{log_handler}

-- What the poll should answer, by the intervention that the engine holds and whether the response's
-- header is on the wire.
abbrev pub verdict : Option Intervention → Bool → ℤ
verdict none header_sent = ngx_ok
verdict (some it) header_sent =
    if is_num 200 it.status then ngx_ok else if header_sent then ngx_error else it.status

abbrev pub held : Option Intervention → ℕ
held none = 0
held (some it) = 1

-- The intervention that the engine hands out at this point.
abbrev pub fetched : Env → State → Option Intervention
fetched env s = env.interventions (intervention ∷ s.trace)

-- The verdict depends on the intervention and on `header_sent` only: not on the allocations, on
-- the log handler's branch or on the redirect that is installed.
pub process_intervention-verdict :
    (env : Env) (early_log : Bool) (s : State)
    → (process_intervention env early_log s).0 ≡ verdict (fetched env s) s.req.header_sent
unfolding process_intervention deny install_location log_handler
process_intervention-verdict env early_log s = ground arith

-- On every branch the intervention that was fetched is freed, once, and nothing else is.
pub process_intervention-frees :
    (env : Env) (early_log : Bool) (s : State)
    → count is_free_intervention (process_intervention env early_log s).1.trace
      ≡ count is_free_intervention s.trace + held (fetched env s)
unfolding process_intervention deny install_location log_handler
process_intervention-frees env early_log s = ground arith

-- The poll after a rule phase lets the request go on exactly if the engine evaluated the phase
-- (its result is not negative) and, where the result is an interruption, the engine holds no
-- intervention that denies (none, one of status 200, or one of status
-- 0 before the header is sent). A phase that was not evaluated is
-- answered by 500, with no call and no change of state.
pub poll_after_process-ok :
    (env : Env) (early_log : Bool) (pret : ℤ) (s : State)
    → ((poll_after_process env early_log pret s).0 ≡ ngx_ok ↔ (
        (is_neg pret ≡ false)
        × ((is_num interruption pret ≡ false)
            ⊎ (verdict (fetched env s) s.req.header_sent ≡ ngx_ok))))
      × ((is_neg pret ≡ false)
          ⊎ (poll_after_process env early_log pret s ≡ (internal_server_error, s)))
unfolding poll_after_process
poll_after_process-ok env early_log pret s =
    ground (arith, process_intervention-verdict env early_log s)
