-- ===== src/Lifecycle.antt =====
-- The life of a transaction after the rewrite handler has made it: all other handlers, nginx moving
-- the request to another location or clearing the context slot, and the pool cleanup at the end
-- (src/ngx_http_coraza_module.c and the handlers).
mod Examples
use coraza_nginx.Common.{
  ◌≡◌, ◌∷◌, ap, sym, subst, Bool, true, false, not, ◌||◌, Option, if◌then◌else◌, arith,
}
use coraza_nginx.Runtime.{
  Env, LocFlags, State, Trace, free_transaction, process_logging, count, is_process_logging,
  is_free_transaction,
}
use coraza_nginx.Logging.{is_enabled, log_handler, cleanup}
use coraza_nginx.Rewrite.{Incoming, rewrite_handler}
use coraza_nginx.Life.{Event, rewrite, pre_access, body_read, log, header, body, elsewhere, handle}
use coraza_nginx.Life.Inert.{Account, account}
use coraza_nginx.Life.Heads.{Filtered, passed, stopped, inspected, header_filter-Filtered}
use coraza_nginx.Life.Polls.{pre_access_handler-Inert, request_read-Inert}
use coraza_nginx.Life.Bodies.{body_filter-Inert}
use coraza_nginx.Life.Sound.{Sound}

-- The event cannot make another transaction: the rewrite handler does so only where the connector is
-- on and the context slot is empty.
abbrev pub makes_none : Event → State → Bool
makes_none (rewrite inc) s = not (is_enabled s.mcf) || s.attached
makes_none _ s = true

-- One step of a request: an event that a handler or nginx takes care of, as the handlers do it, or an
-- internal redirect, which clears the context slot and may change the location.
pub data Step (env : Env) : State → State → Type 0 where
  handled : {s : State} (e : Event) → makes_none e s ≡ true → Step env s (handle env e s)
  redirect : {s : State} (f : Option LocFlags) → Step env s (record s { attached = false; mcf = f })

pub data Reach (env : Env) (s : State) : State → Type 0 where
  here : Reach env s s
  next : {t u : State} → Reach env s t → Step env t u → Reach env s u

-- The flag says whether the transaction is logged, and it is not freed.
pub record Accounted (a : Account) : Type 0 where
  pub logging : a.loggings ≡ (if a.logged then 1 else 0)
  pub freeing : a.freed ≡ 0

-- So it is where the handlers have made a transaction whose cleanup is registered.
pub Sound-Accounted : (a : Account) → Sound a → a.attached ≡ true → a.cleanups ≡ 1 → Accounted a
Sound-Accounted a s at c = ground (arith, s, s.logs at)

Filtered-Accounted : (a b : Account) → Filtered a b → Accounted a → Accounted b
Filtered-Accounted a b (passed e) k = subst Accounted (sym e) k
Filtered-Accounted a b (stopped at p e) k = subst Accounted (sym e) (ground (arith, k))
Filtered-Accounted a b (inspected at p e) k = subst Accounted (sym e) (ground (arith, k))

rewrite_handler-none :
    (env : Env) (inc : Incoming) (s : State)
    → not (is_enabled s.mcf) || s.attached ≡ true
    → (rewrite_handler env inc s).1 ≡ s
unfolding rewrite_handler
rewrite_handler-none env inc s n = ground (arith, n)

log_handler-Accounted :
    (env : Env) (s : State) → Accounted (account env s) → Accounted (account env (log_handler s).1)
unfolding log_handler
log_handler-Accounted env s a = ground (arith, a)

handle-Accounted :
    (env : Env) (e : Event) (s : State)
    → makes_none e s ≡ true
    → Accounted (account env s)
    → Accounted (account env (handle env e s))
unfolding handle
handle-Accounted env (rewrite inc) s n a =
    subst (λ t. Accounted (account env t)) (sym (rewrite_handler-none env inc s n)) a
handle-Accounted env pre_access s n a = subst Accounted (sym (pre_access_handler-Inert env s)) a
handle-Accounted env body_read s n a = subst Accounted (sym (request_read-Inert env s)) a
handle-Accounted env log s n a = log_handler-Accounted env s a
handle-Accounted env (header hd) s n a =
    Filtered-Accounted (account env s) _ (header_filter-Filtered env hd s) a
handle-Accounted env (body bufs) s n a =
    subst Accounted (sym (body_filter-Inert env (record s { chain = bufs }))) a
handle-Accounted env (elsewhere req bufs f) s n a = ground (arith, a)

Step-Accounted :
    {env : Env} {s t : State} → Step env s t → Accounted (account env s) → Accounted (account env t)
Step-Accounted {env} {s} (handled e n) a = handle-Accounted env e s n a
Step-Accounted (redirect f) a = ground (arith, a)

Reach-Accounted :
    {env : Env} {s t : State}
    → Accounted (account env s)
    → Reach env s t
    → Accounted (account env t)
Reach-Accounted a here = a
Reach-Accounted a (next r st) = Step-Accounted st (Reach-Accounted a r)

-- The calls before the free.
abbrev before_free : State → Trace
before_free t = if t.ctx.logged then t.trace else process_logging ∷ t.trace

-- From a transaction that is neither freed nor logged more often than its flag says, through any
-- calls of the handlers that make no other transaction, denials included, with whatever else nginx
-- does to the request in between: changes of the location, and internal redirects that hide the
-- context from the LOG phase. The pool's cleanup ends with the free of the transaction, and before
-- it the transaction was logged exactly once and not freed.
pub cleanup-once :
    {env : Env} {s t : State}
    → Accounted (account env s)
    → Reach env s t
    → (rest : Trace) × ((cleanup t).1.trace ≡ free_transaction ∷ rest)
      × (count is_process_logging rest ≡ 1)
      × (count is_free_transaction rest ≡ 0)
unfolding cleanup
cleanup-once {t = t} a r =
    let b = Reach-Accounted a r in
    (before_free t, ground arith, ground (arith, b), ground (arith, b))
