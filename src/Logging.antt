-- ===== src/Logging.antt =====
-- src/ngx_http_coraza_log.c and `ngx_http_coraza_cleanup` of src/ngx_http_coraza_module.c.
use coraza_nginx.Common.{ℤ, ngx_ok, Bool, true, false, not, ◌||◌, Option, none, some}
use coraza_nginx.Runtime.{
  LocFlags, M, pure, branch, ◌>>=◌, ◌>>◌, get, call, set_ctx, process_logging, free_transaction,
}

-- `mcf != NULL && mcf->enable == 1`.
abbrev pub is_enabled : Option LocFlags → Bool
is_enabled none = false
is_enabled (some f) = f.enable

unfoldable pub log_handler : M ℤ
log_handler = do
  s ← get
  branch (not (is_enabled s.mcf)) (pure ngx_ok) (
      branch (not s.attached || s.ctx.logged) (pure ngx_ok)
        (do call process_logging; set_ctx (λ c. record c { logged = true }); pure ngx_ok))

unfoldable pub cleanup : M (Unit {0})
cleanup = do
  s ← get
  branch s.ctx.logged (pure tt) (do call process_logging; set_ctx (λ c. record c { logged = true }))
  call free_transaction
