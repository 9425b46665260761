-- ===== src/Intervention.antt =====
-- `ngx_http_coraza_process_intervention` of src/ngx_http_coraza_module.c, and the poll after a rule
-- phase of src/ngx_http_coraza_common.h.
pub mod Verdict
pub mod Location
pub mod Frame
mod Examples
use coraza_nginx.Common.{
  ℕ, ℤ, pos, Bool, true, false, not, ◌&&◌, ◌||◌, ◌==◌, leb, is_neg, is_num, ngx_ok, ngx_error,
  internal_server_error, Option, none, some, List, [], ◌∷◌, ◌++◌, length, if◌then◌else◌,
}
use coraza_nginx.Pack.{Bytes}
use coraza_nginx.Runtime.{
  Elt, Env, HeadersOut, Intervention, Request, State, M, pure, branch, ◌>>=◌, ◌>>◌, get, call,
  allocate, fetch, set_ctx, set_req, free_intervention, update_status_code, list_push, pnalloc,
}
use coraza_nginx.Logging.{log_handler}

abbrev pub interruption : ℕ
interruption = 1

-- The statuses for which a Location is installed, as a test that both filters share.
unfoldable pub is_redirect_status : ℤ → Bool
is_redirect_status n =
    is_num 301 n || (is_num 302 n || (is_num 303 n || (is_num 307 n || is_num 308 n)))

-- No C0 control character and not DEL.
abbrev pub is_safe_byte : ℕ → Bool
is_safe_byte c = leb 0x20 c && not (c == 0x7f)

-- The bytes of the redirect target up to the first that is not safe.
unfoldable pub safe_prefix : Bytes → Bytes
safe_prefix [] = []
safe_prefix (c ∷ cs) = if is_safe_byte c then c ∷ safe_prefix cs else []

-- "Location"
abbrev pub location_key : Bytes
location_key = 76 ∷ 111 ∷ 99 ∷ 97 ∷ 116 ∷ 105 ∷ 111 ∷ 110 ∷ []

-- A new element at the end of the header list, and the pointer to it if it is live.
abbrev pub push_location : Bool → Bytes → HeadersOut → HeadersOut
push_location true value o = record o {
  headers = o.headers ++ (record { hash = 1; key = location_key; value = value } ∷ []);
  location = some (length o.headers);
}
push_location false value o = record o {
  headers = o.headers ++ (record { hash = 0; key = location_key; value = [] } ∷ []);
}

unfoldable pub install_location : Env → ℤ → Option Bytes → M (Unit {0})
unfolding is_redirect_status
install_location env status none = pure tt
install_location env status (some target) =
    branch (is_redirect_status status)
      (do
        pushed ← allocate env list_push
        branch pushed
            (do
              stored ← allocate env (pnalloc (length (safe_prefix target)))
              set_req (λ r. record r { out = push_location stored (safe_prefix target) r.out }))
            (pure tt))
      (pure tt)

-- What is done with an intervention whose status is not 200.
unfoldable pub deny : Env → Bool → Intervention → M ℤ
deny env early_log it = do
  call (update_status_code it.status)
  branch early_log (do _ ← log_handler; set_ctx (λ c. record c { logged = true })) (pure tt)
  s ← get
  branch s.req.header_sent (do call free_intervention; pure ngx_error)
      (do install_location env it.status it.target; call free_intervention; pure it.status)

-- What is done with the engine's answer to the poll.
unfoldable pub settle : Env → Bool → Option Intervention → M ℤ
settle env early_log none = pure ngx_ok
settle env early_log (some it) =
    branch (is_num 200 it.status) (do call free_intervention; pure ngx_ok) (deny env early_log it)

unfoldable pub process_intervention : Env → Bool → M ℤ
unfolding settle
process_intervention env early_log = do it ← fetch env; settle env early_log it

-- A phase could not be evaluated at all.
unfoldable pub process_body_failed : ℤ → Bool
process_body_failed ret = is_neg ret

unfoldable pub poll_after_process : Env → Bool → ℤ → M ℤ
poll_after_process env early_log pret =
    branch (is_neg pret) (pure internal_server_error)
      (branch (not (is_num interruption pret)) (pure ngx_ok) (process_intervention env early_log))
