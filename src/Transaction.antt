-- ===== src/Transaction.antt =====
-- `ngx_http_coraza_create_ctx` of src/ngx_http_coraza_module.c: the context of a request and its
-- transaction.
pub mod Owned
mod Examples
use coraza_nginx.Common.{
  ℕ, suc, ◌+◌, ◌==◌, ℤ, pos, Bool, true, false, not, ◌||◌, is_num, Option, none, some, [], ◌∷◌,
  length, if◌then◌else◌,
}
use coraza_nginx.Pack.{Bytes}
use coraza_nginx.Runtime.{
  Ctx, Env, State, M, pure, branch, ◌>>=◌, ◌>>◌, ask, allocate, call, set_ctx, new_transaction,
  new_transaction_with_id, free_transaction, pcalloc, cleanup_add, complex_value, pstrdup,
}

-- The handles of the location and of the main configuration (0 is none), and the transaction's id,
-- where the location sets one, as nginx evaluates it for the request.
pub record Wafs : Type 0 where
  pub loc_waf : ℕ
  pub main_waf : ℕ
  pub transaction_id : Option Bytes

abbrev pub chosen_waf : Wafs → ℕ
chosen_waf w = if w.loc_waf == 0 then w.main_waf else w.loc_waf

-- The context as `ngx_pcalloc` leaves it, but for the transaction.
abbrev pub new_ctx : Bool → Ctx
new_ctx has = record {
  has_transaction = has;
  transaction_id = [];
  pending_chain = [];
  pending_bytes = 0;
  resp_hdr_collect = none;
  waiting_more_body = false;
  body_requested = false;
  body_submitted = false;
  processed = false;
  logged = false;
  intervention_triggered = false;
  headers_delayed = false;
  response_body_processable = false;
}

-- `ngx_http_set_ctx`.
abbrev pub attach : M (Unit {0})
attach s = (tt, record s { attached = true; ctx = new_ctx true })

abbrev pub register_cleanup : M (Unit {0})
register_cleanup s = (tt, record s { cleanups = suc s.cleanups })

-- The copy of the id in the context.
unfoldable pub keep_id : Env → Option Bytes → M Bool
keep_id env none = pure true
keep_id env (some id) = do
  copied ← allocate env (pstrdup (length id))
  branch (not copied) (pure false) (do set_ctx (λ c. record c { transaction_id = id }); pure true)

-- From the transaction's handle on. `false` is a NULL context.
unfoldable pub adopt : Env → Option Bytes → ℤ → M Bool
unfolding keep_id
adopt env id handle = branch (is_num 0 handle) (pure false) (do
  attach
  added ← allocate env cleanup_add
  branch (not added)
      (do call free_transaction; set_ctx (λ c. record c { has_transaction = false }); pure false)
      (do register_cleanup; keep_id env id))

unfoldable pub open_transaction : Env → ℕ → Option Bytes → M Bool
unfolding adopt
open_transaction env waf none = do handle ← ask env (new_transaction waf); adopt env none handle
open_transaction env waf (some id) = do
  evaluated ← allocate env complex_value
  branch (not evaluated) (pure false)
      (do handle ← ask env (new_transaction_with_id waf id); adopt env (some id) handle)

unfoldable pub create_ctx : Env → Wafs → M Bool
unfolding open_transaction
create_ctx env w = do
  allocated ← allocate env pcalloc
  branch (not allocated || chosen_waf w == 0) (pure false)
      (open_transaction env (chosen_waf w) w.transaction_id)
