-- ===== src/Life/Whole.antt =====
-- What holds of a request as a whole (src/ngx_http_coraza_module.c and the handlers).
use coraza_nginx.Common.{
  ℕ, zero, suc, ◌≡◌, ◌⊎◌, inl, inr, refl, ap, sym, subst, false, List, [], ◌∷◌, arith,
}
use coraza_nginx.Runtime.{Env, State, count, is_process_logging}
use coraza_nginx.Life.{
  Event, rewrite, pre_access, body_read, log, header, body, elsewhere, handle, run, clean_up,
  whole_request,
}
use coraza_nginx.Transaction.Owned.{created}
use coraza_nginx.Life.Inert.{Account, account}
use coraza_nginx.Life.Polls.{pre_access_handler-Inert, request_read-Inert}
use coraza_nginx.Life.Bodies.{body_filter-Inert}
use coraza_nginx.Life.Heads.{header_filter-Filtered}
use coraza_nginx.Life.Sound.{
  Sound, Filtered-Sound, rewrite_handler-Sound, log_handler-Sound, Finished, cleanup-Finished,
  no_cleanup-Finished,
}

handle-Sound :
    (env : Env) (e : Event) (s : State)
    → Sound (account env s)
    → Sound (account env (handle env e s))
unfolding handle
handle-Sound env (rewrite inc) s a = rewrite_handler-Sound env inc s a
handle-Sound env pre_access s a = subst Sound (sym (pre_access_handler-Inert env s)) a
handle-Sound env body_read s a = subst Sound (sym (request_read-Inert env s)) a
handle-Sound env log s a = log_handler-Sound env s a
handle-Sound env (header hd) s a =
    Filtered-Sound (account env s) _ (header_filter-Filtered env hd s) a
handle-Sound env (body bufs) s a =
    subst Sound (sym (body_filter-Inert env (record s { chain = bufs }))) a
handle-Sound env (elsewhere req bufs f) s a = ground (arith, a)

pub run-Sound :
    (env : Env) (es : List Event) (s : State)
    → Sound (account env s)
    → Sound (account env (run env es s))
unfolding run
run-Sound env [] s a = a
run-Sound env (e ∷ es) s a = run-Sound env es (handle env e s) (handle-Sound env e s a)

-- A request that the connector has not seen.
pub record IsNew (s : State) : Type 0 where
  pub no_calls : s.trace ≡ []
  pub no_context : s.attached ≡ false
  pub no_cleanups : s.cleanups ≡ 0

pub new-Sound : (env : Env) (s : State) → IsNew s → Sound (account env s)
new-Sound env s n = ground (arith, n, ap (created env) n.no_calls)

one_cleanup : (a : Account) (n : ℕ) → Sound a → a.cleanups ≡ suc (suc n) → ⊥
one_cleanup a n s c = ground (arith, s, c)

clean_up-Finished :
    (env : Env) (n : ℕ) (t : State)
    → Sound (account env t)
    → t.cleanups ≡ n
    → Finished (account env (clean_up n t))
      × ((n ≡ 0) ⊎ (count is_process_logging (clean_up n t).trace ≡ 1))
unfolding clean_up
clean_up-Finished env zero t a c = (no_cleanup-Finished (account env t) a c, inl refl)
clean_up-Finished env (suc zero) t a c = let (f, l) = cleanup-Finished env t a c in (f, inr l)
clean_up-Finished env (suc (suc n)) t a c = absurd (one_cleanup (account env t) n a c)

-- A new request, through any sequence of the handlers' calls with whatever else nginx does to it
-- in between but an internal redirect, changes of the location included, and through the end of its pool, whatever libcoraza, the
-- disk and the allocator answer: at most one transaction is made, and each that is made is freed
-- exactly once; phase 1 and phase 3 are run at most once; the transaction is logged at most once,
-- and exactly once where its cleanup was registered.
pub whole_request-Finished :
    (env : Env) (es : List Event) (s : State)
    → IsNew s
    → Finished (account env (whole_request env es s))
      × (((run env es s).cleanups ≡ 0)
          ⊎ (count is_process_logging (whole_request env es s).trace ≡ 1))
unfolding whole_request
whole_request-Finished env es s n =
    let t = run env es s in
    clean_up-Finished env t.cleanups t (run-Sound env es s (new-Sound env s n)) refl
