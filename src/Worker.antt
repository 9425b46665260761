-- ===== src/Worker.antt =====
-- The start and the exit of a worker as a whole (src/ngx_http_coraza_module.c): libcoraza is opened,
-- the handles are built, and at the exit they are freed.
pub mod Lifetime
mod Examples
use coraza_nginx.Common.{ℤ, Bool, true, false, eq_code, ngx_ok, Option, none, some, if◌then◌else◌}
use coraza_nginx.Conf.{MainConf}
use coraza_nginx.Waf.{WafEnv, WafTrace, init_process, exit_process}
use coraza_nginx.Dl.{Library, Loader, dl_open, dl_close}

-- The library's pointers, the main configuration (`none` is NULL), and the calls into the engine.
pub record Worker : Type 0 where
  pub loader : Loader
  pub conf : Option MainConf
  pub trace : WafTrace

-- From the open on.
unfoldable pub start_handles : WafEnv → Loader → Option MainConf → WafTrace → Bool × Worker
start_handles env l none t = (true, record { loader = l; conf = none; trace = t })
start_handles env l (some m) t =
    let ((m', on), t') = init_process env m t in
    (on, record { loader = l; conf = some m'; trace = t' })

abbrev pub after_open : WafEnv → ℤ × Loader → Worker → Bool × Worker
after_open env (rc, l) w =
    let run = start_handles env l w.conf w.trace in
    if eq_code ngx_ok rc then run else (false, record w { loader = l })

-- `ngx_http_coraza_init_process`; the answer is whether the worker starts.
unfoldable pub start_worker : Library → WafEnv → Worker → Bool × Worker
unfolding start_handles
start_worker lib env w = after_open env (dl_open lib w.loader) w

unfoldable pub free_handles : Loader → Option MainConf → WafTrace → Worker
free_handles l none t = record { loader = dl_close l; conf = none; trace = t }
free_handles l (some m) t =
    let (m', t') = exit_process m t in record { loader = dl_close l; conf = some m'; trace = t' }

-- `ngx_http_coraza_exit_process`.
unfoldable pub exit_worker : Worker → Worker
unfolding free_handles
exit_worker w = free_handles w.loader w.conf w.trace
