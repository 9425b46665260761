-- ===== src/Runtime/Monad.antt =====
-- The state that the handlers pass on, and the ways to call out of the connector.
use coraza_nginx.Common.{ℕ, ℤ, Bool, true, Option, List, ◌∷◌, if◌then◌else◌}
use coraza_nginx.Runtime.Types.{
  Buf, Call, Ctx, Env, Intervention, LocFlags, Read, Request, Trace, intervention, read_file,
}

-- `ctx` is the context object; `attached` says whether the request's context slot still points to
-- it, and `mcf` is the location's configuration, if there is one. `chain` is the chain that nginx
-- hands to the body filter, and what the filter makes of its buffers; `cleanups` counts the pool's calls of the connector's cleanup to come.
pub record State : Type 0 where
  pub trace : Trace
  pub ctx : Ctx
  pub attached : Bool
  pub mcf : Option LocFlags
  pub req : Request
  pub chain : List Buf
  pub cleanups : ℕ

abbrev pub M : Type 0 → Type 0
M A = State → A × State

abbrev pub pure : {A : Type 0} → A → M A
pure a s = (a, s)

infixl 5 ◌>>=◌ ◌>>◌
abbrev pub ◌>>=◌ : {A B : Type 0} → M A → (A → M B) → M B
◌>>=◌ m f s = let (a, s') = m s in f a s'

abbrev pub ◌>>◌ : {B : Type 0} → M (Unit {0}) → M B → M B
m >> k = m >>= λ _. k

-- What nginx has left in `r->request_body`.
abbrev pub receive_body : Env → M (Unit {0})
receive_body env s = (tt, record s { req = record (s.req) { request_body = env.bodies s.trace } })

-- A test between two steps of the same kind. (Both wait for the state.)
abbrev pub branch : {A : Type 0} → Bool → M A → M A → M A
branch b yes_case no_case s = if b then yes_case s else no_case s

abbrev pub get : M State
get s = (s, s)

abbrev pub set_ctx : (Ctx → Ctx) → M (Unit {0})
set_ctx f s = (tt, record s { ctx = f s.ctx })

abbrev pub set_req : (Request → Request) → M (Unit {0})
set_req f s = (tt, record s { req = f s.req })

abbrev pub set_chain : List Buf → M (Unit {0})
set_chain bufs s = (tt, record s { chain = bufs })

abbrev pub log_call : Call → State → State
log_call c s = record s { trace = c ∷ s.trace }

abbrev pub call : Call → M (Unit {0})
call c s = (tt, log_call c s)

abbrev pub ask : Env → Call → M ℤ
ask env c s = (env.results (c ∷ s.trace), log_call c s)

abbrev pub allocate : Env → Call → M Bool
allocate env c s = (env.allocates (c ∷ s.trace), log_call c s)

abbrev pub fetch : Env → M (Option Intervention)
fetch env s = (env.interventions (intervention ∷ s.trace), log_call intervention s)

abbrev pub read_at : Env → ℕ → ℕ → ℕ → M Read
read_at env fd size offset s =
    (env.reads (read_file fd size offset ∷ s.trace), log_call (read_file fd size offset) s)

abbrev pub trigger : M (Unit {0})
trigger = set_ctx (λ c. record c { intervention_triggered = true })
