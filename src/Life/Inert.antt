-- ===== src/Life/Inert.antt =====
-- What most of the connector leaves alone: the account of a request's transaction. (src/ as a whole)
use coraza_nginx.Common.{ℕ, ◌≡◌, ◌∙◌, Bool, true, false, Option}
use coraza_nginx.Runtime.{
  Env, State, LocFlags, M, branch, ◌>>=◌, count, is_free_transaction, is_process_logging,
  is_process_request_headers, is_process_response_headers,
}
use coraza_nginx.Transaction.Owned.{created}

-- The account: the transactions that were made and freed and the runs of logging and of the phases
-- on headers, by the calls, and what the context says of them.
pub record Account : Type 0 where
  pub made : ℕ
  pub freed : ℕ
  pub loggings : ℕ
  pub request_phases : ℕ
  pub response_phases : ℕ
  pub cleanups : ℕ
  pub attached : Bool
  pub mcf : Option LocFlags
  pub processed : Bool
  pub logged : Bool

abbrev pub account : Env → State → Account
account env s = record {
  made = created env s.trace;
  freed = count is_free_transaction s.trace;
  loggings = count is_process_logging s.trace;
  request_phases = count is_process_request_headers s.trace;
  response_phases = count is_process_response_headers s.trace;
  cleanups = s.cleanups;
  attached = s.attached;
  mcf = s.mcf;
  processed = s.ctx.processed;
  logged = s.ctx.logged;
}

-- Code that keeps the account.
abbrev pub Inert : Env → {A : Type 0} → M A → Type 0
Inert env m = (s : State) → account env (m s).1 ≡ account env s

pub bind-Inert :
    (env : Env) {A B : Type 0} (m : M A) (f : A → M B)
    → Inert env m
    → ((a : A) → Inert env (f a))
    → Inert env (m >>= f)
bind-Inert env m f p q s = q (m s).0 (m s).1 ∙ p s

pub branch-Inert :
    (env : Env) {A : Type 0} (b : Bool) (m n : M A)
    → Inert env m
    → Inert env n
    → Inert env (branch b m n)
branch-Inert env true m n p q s = p s
branch-Inert env false m n p q s = q s
