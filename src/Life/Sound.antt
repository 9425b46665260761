-- ===== src/Life/Sound.antt =====
-- The account of a request's transaction over all handlers.
use coraza_nginx.Common.{
  ◌+◌, ◌≤◌, ◌≡◌, inl, inr, ap, sym, subst, ◌∙◌, Bool, Bool-cases, true, false, not, ◌||◌,
  if◌then◌else◌, arith,
}
use coraza_nginx.Runtime.{Env, State, count, is_process_logging}
use coraza_nginx.Logging.{is_enabled, log_handler, cleanup}
use coraza_nginx.Transaction.{Wafs, create_ctx, open_transaction, adopt, keep_id}
use coraza_nginx.Rewrite.{Incoming, submit_connection, rewrite_handler}
use coraza_nginx.Life.Inert.{Account, account}
use coraza_nginx.Life.Heads.{Filtered, passed, stopped, inspected}
use coraza_nginx.Life.Requests.{Onward, submit_connection-Goes}

-- What holds of the account between two handlers.
pub record Sound (a : Account) : Type 0 where
  pub owned : a.made ≡ a.freed + a.cleanups
  pub single : a.made ≤ 1
  pub one_request_phase : a.request_phases ≤ 1
  pub one_response_phase : a.response_phases ≤ (if a.processed then 1 else 0)
  pub before :
      a.attached ≡ false
      → (a.made ≡ 0) × (a.request_phases ≡ 0) × (a.response_phases ≡ 0) × (a.loggings ≡ 0)
  pub logs : a.attached ≡ true → a.loggings ≡ (if a.logged then 1 else 0)

pub Filtered-Sound : (a b : Account) → Filtered a b → Sound a → Sound b
Filtered-Sound a b (passed e) s = subst Sound (sym e) s
Filtered-Sound a b (stopped at p e) s = subst Sound (sym e) (ground (arith, s, at, p))
Filtered-Sound a b (inspected at p e) s = subst Sound (sym e) (ground (arith, s, at, p))

-- A context that was made just now.
record Opened (a : Account) (r : Bool) (b : Account) : Type 0 where
  sound : Sound b
  no_phase : b.request_phases ≡ 0
  same_mcf : b.mcf ≡ a.mcf
  there : r ≡ true → b.attached ≡ true

create_ctx-Opened :
    (env : Env) (w : Wafs) (s : State)
    → s.attached ≡ false
    → Sound (account env s)
    → let r = create_ctx env w s in Opened (account env s) r.0 (account env r.1)
unfolding create_ctx open_transaction adopt keep_id
create_ctx-Opened env w s n a = ground (arith, n, a, a.before n)

Onward-Sound :
    (a b : Account)
    → Onward a b
    → Sound a
    → a.attached ≡ true
    → is_enabled a.mcf ≡ true
    → a.request_phases ≡ 0
    → Sound b
Onward-Sound a b o s at on n = ground (arith, o, s, at, on, n, o.logs at on (s.logs at))

-- The handler of the rewrite phase.
pub rewrite_handler-Sound :
    (env : Env) (inc : Incoming) (s : State)
    → Sound (account env s)
    → Sound (account env (rewrite_handler env inc s).1)
unfolding rewrite_handler
rewrite_handler-Sound env inc s a = elim (Bool-cases (not (is_enabled s.mcf) || s.attached)) [
  | inl skips ↦ rw skips a
  | inr runs ↦
      let n : s.attached ≡ false = ground (arith, runs) in
      let on : is_enabled s.mcf ≡ true = ground (arith, runs) in
      let r = create_ctx env inc.wafs s in
      let o = create_ctx-Opened env inc.wafs s n a in
      elim (Bool-cases r.0) [
        | inr fails ↦ rw (runs, fails) o.sound
        | inl made ↦
            rw (runs, made)
              (Onward-Sound (account env r.1) (account env (submit_connection env inc r.1).1)
                (submit_connection-Goes env inc r.1) o.sound (o.there made)
                (ap is_enabled o.same_mcf ∙ on) o.no_phase)
      ]
]

pub log_handler-Sound :
    (env : Env) (s : State) → Sound (account env s) → Sound (account env (log_handler s).1)
unfolding log_handler
log_handler-Sound env s a = ground (arith, a)

-- The cleanup of the request's pool, for a context that is registered there.
pub record Finished (a : Account) : Type 0 where
  pub freed_all : a.freed ≡ a.made
  pub one_transaction : a.made ≤ 1
  pub one_request_phase : a.request_phases ≤ 1
  pub one_response_phase : a.response_phases ≤ 1
  pub one_logging : a.loggings ≤ 1

pub cleanup-Finished :
    (env : Env) (s : State)
    → Sound (account env s)
    → s.cleanups ≡ 1
    → Finished (account env (cleanup s).1) × (count is_process_logging (cleanup s).1.trace ≡ 1)
unfolding cleanup
cleanup-Finished env s a c = ground (arith, a, c, a.before, a.logs)

pub no_cleanup-Finished : (a : Account) → Sound a → a.cleanups ≡ 0 → Finished a
no_cleanup-Finished a s c = ground (arith, s, c, s.before, s.logs)
