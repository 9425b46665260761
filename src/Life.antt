-- ===== src/Life.antt =====
-- A request through all handlers of the connector (src/ngx_http_coraza_module.c registers them):
-- the rewrite phase, the preaccess phase, the two filters, the log phase and the pool's cleanup.
pub mod Inert
pub mod Polls
pub mod Bodies
pub mod Heads
pub mod Requests
pub mod Sound
pub mod Whole
pub mod Examples
use coraza_nginx.Common.{ℕ, zero, suc, Option, List, [], ◌∷◌}
use coraza_nginx.Runtime.{Buf, Env, LocFlags, Request, State}
use coraza_nginx.Logging.{log_handler, cleanup}
use coraza_nginx.Rewrite.{Incoming, rewrite_handler}
use coraza_nginx.PreAccess.{request_read, pre_access_handler}
use coraza_nginx.HeaderFilter.Resolvers.{Head}
use coraza_nginx.HeaderFilter.Filter.{header_filter}
use coraza_nginx.BodyFilter.Filter.{body_filter}

-- What nginx does with a request: a call of one of the connector's entry points, or anything else
-- that changes the request, the chain of buffers or the location (`elsewhere`), as a rewrite of the
-- URI does that keeps the context.
pub data Event : Type 0 where
  rewrite : Incoming → Event
  pre_access body_read log : Event
  header : Head → Event
  body : List Buf → Event
  elsewhere : Request → List Buf → Option LocFlags → Event

unfoldable pub handle : Env → Event → State → State
handle env (rewrite inc) s = (rewrite_handler env inc s).1
handle env pre_access s = (pre_access_handler env s).1
handle env body_read s = (request_read s).1
handle env log s = (log_handler s).1
handle env (header hd) s = (header_filter env hd s).1
handle env (body bufs) s = (body_filter env (record s { chain = bufs })).1
handle env (elsewhere req bufs f) s = record s { req = req; chain = bufs; mcf = f }

unfoldable pub run : Env → List Event → State → State
run env [] s = s
run env (e ∷ es) s = run env es (handle env e s)

-- The end of the request's pool: each cleanup that is registered there.
unfoldable pub clean_up : ℕ → State → State
clean_up zero s = s
clean_up (suc n) s = clean_up n (cleanup s).1

unfoldable pub whole_request : Env → List Event → State → State
whole_request env es s = let t = run env es s in clean_up t.cleanups t
