-- ===== src/Worker/Lifetime.antt =====
-- The engine over the life of a worker (src/ngx_http_coraza_module.c and src/ngx_http_coraza_dl.c).
use coraza_nginx.Common.{ℕ, ◌≡◌, Bool, false, some, []}
use coraza_nginx.Conf.{MainConf}
use coraza_nginx.Waf.{WafEnv}
use coraza_nginx.Waf.Turn.{built, freed}
use coraza_nginx.Dl.{Library, Loader}
use coraza_nginx.Dl.Loaded.{Loaded, Unloaded}
use coraza_nginx.Dl.Opens.{IsSupported}
use coraza_nginx.Worker.{Worker, exit_worker}

-- A worker before its start.
abbrev pub forked : Loader → MainConf → Worker
forked l m = record { loader = l; conf = some m; trace = [] }

-- What becomes of a worker, and of a handle in it.
pub data Lived (lib : Library) (env : WafEnv) (h : ℕ) (r : Bool × Worker) : Type 0 where
  -- the library is not supported, and no handle was asked of it
  refuses :
      r.0 ≡ false
      → ((k : ℕ) → IsSupported lib k → ⊥)
      → Unloaded r.1.loader
      → r.1.trace ≡ []
      → Lived lib env h r
  -- the library is open, and still is when the handles are freed; the worker's exit frees the
  -- handle as often as it was built
  runs :
      (k : ℕ)
      → IsSupported lib k
      → Loaded k r.1.loader
      → Loaded k (exit_worker r.1).loader
      → freed h (exit_worker r.1).trace ≡ built env h (exit_worker r.1).trace
      → Lived lib env h r
