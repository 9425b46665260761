-- ===== src/BodyFilter/Filter.antt =====
-- The buffers that are held back while the headers are, the loop over the chain, and the filter.
use coraza_nginx.Common.{
  ℕ, ◌+◌, ◌%◌, ℤ, Bool, true, false, not, ◌&&◌, ◌||◌, ltb, eq_code, ngx_ok, ngx_error, Option, none,
  some, List, [], ◌∷◌, ◌++◌, length, set, if◌then◌else◌,
}
use coraza_nginx.Pack.{Bytes}
use coraza_nginx.Runtime.{
  Buf, Ctx, Env, M, pure, branch, ◌>>=◌, ◌>>◌, get, ask, allocate, set_ctx, set_chain,
  alloc_chain_link, calloc_buf, pnalloc, next_body_filter,
}
use coraza_nginx.Redirect.{forward_header}
use coraza_nginx.BodyFilter.File.{size_mod, file_range, read_body_data}
use coraza_nginx.BodyFilter.Stages.{
  Flow, pass_chain, consume, internal_error, inspect_stage, phase_stage, is_pure_file, then_go,
}

-- NGX_HTTP_CORAZA_MAX_DELAYED_BODY.
abbrev pub max_delayed_body : ℕ
max_delayed_body = 1048576

-- The buffer that `ngx_calloc_buf` and the copy of the bytes give.
abbrev pub copied : Buf → Bytes → Buf
copied b bytes = record {
  in_memory = ltb 0 (length bytes);
  bytes = bytes;
  in_file = false;
  has_file = false;
  fd = 0;
  directio = false;
  file_pos = 0;
  file_last = 0;
  temp_file = false;
  last_buf = false;
  last_in_chain = b.last_in_chain;
  flush = b.flush;
}

-- The original buffer is marked consumed.
abbrev pub recycled : Buf → Buf
recycled b =
    if b.in_memory
    then record b { bytes = [] }
    else if b.in_file
    then record b { file_pos = b.file_last }
    else b

-- A link at the end of the pending chain, and what it counts for the cap.
abbrev pub push_pending : Buf → ℕ → Ctx → Ctx
push_pending b size c = record c {
  pending_chain = c.pending_chain ++ (b ∷ []);
  pending_bytes = (c.pending_bytes + size) % size_mod;
}

-- `i` is the place of the original in the chain.
unfoldable pub hold : Buf → ℕ → ℕ → Buf → M Flow
hold copy size i b = do
  s ← get
  set_chain (set s.chain i (recycled b))
  set_ctx (push_pending copy size)
  pure none

unfoldable pub copy_buf : Env → Option Bytes → ℕ → Buf → M Flow
copy_buf env none i b = internal_error env
copy_buf env (some bytes) i b = do
  room ← allocate env calloc_buf
  branch room
      (branch (ltb 0 (length bytes))
        (do
          room' ← allocate env (pnalloc (length bytes))
          branch room' (hold (copied b bytes) (length bytes) i b) (internal_error env))
        (hold (copied b bytes) 0 i b))
      (internal_error env)

unfoldable pub delay_stage : Env → ℕ → Buf → M Flow
delay_stage env i b = do
  s ← get
  branch s.ctx.headers_delayed
      (do
        link ← allocate env alloc_chain_link
        branch link
            (branch b.last_buf
              (do
                set_ctx (λ c. record c { pending_chain = c.pending_chain ++ (b ∷ []) })
                pure none)
              (branch (is_pure_file b && not b.temp_file)
                (do
                  room ← allocate env calloc_buf
                  branch room (hold (record b { last_buf = false }) (file_range b) i b)
                      (internal_error env))
                (do bytes ← read_body_data env b; copy_buf env bytes i b)))
            (internal_error env))
      (pure none)

-- The loop, from the buffer at place `i`: each goes through the three stages.
unfoldable pub filter_loop : Env → ℕ → List Buf → M Flow
filter_loop env i [] = pure none
filter_loop env i (b ∷ todo) =
    then_go (inspect_stage env b)
      (then_go (phase_stage env b) (then_go (delay_stage env i b) (filter_loop env (i + 1) todo)))

-- `is_request_processed` when the loop has gone through the chain.
unfoldable pub is_request_processed : Bool → List Buf → Bool
is_request_processed acc [] = acc
is_request_processed acc (b ∷ bs) = is_request_processed (acc || b.last_buf) bs

-- The held headers, and behind them the held chain, whatever the headers' write answers but an
-- error.
unfoldable pub flush_pending : Env → M ℤ
unfolding forward_header
flush_pending env = do
  set_ctx (λ c. record c { headers_delayed = false })
  rc ← forward_header env
  branch (eq_code ngx_error rc) (pure ngx_error) (do
    s ← get
    set_ctx (λ c. record c { pending_chain = [] })
    ask env (next_body_filter s.ctx.pending_chain))

-- What follows the loop, for a chain that the loop went through.
unfoldable pub after_loop : Env → List Buf → M ℤ
after_loop env bufs = do
  s ← get
  branch s.ctx.headers_delayed
      (branch (is_request_processed false bufs) (flush_pending env)
        (branch (ltb max_delayed_body s.ctx.pending_bytes) (flush_pending env) (pure ngx_ok)))
      (pass_chain env)

-- The loop's answer, or what follows it.
unfoldable pub settle_flow : Env → List Buf → Flow → M ℤ
settle_flow env bufs none s = after_loop env bufs s
settle_flow env bufs (some rc) s = (rc, s)

unfoldable pub filter_chain : Env → List Buf → M ℤ
filter_chain env bufs = do flow ← filter_loop env 0 bufs; settle_flow env bufs flow

abbrev pub is_empty : List Buf → Bool
is_empty [] = true
is_empty (b ∷ bs) = false

-- The filter, on the chain `s.chain`.
unfoldable pub body_filter : Env → M ℤ
body_filter env = do
  s ← get
  branch (is_empty s.chain || not s.attached) (pass_chain env) (
      branch s.ctx.intervention_triggered
        (branch s.req.header_only (do consume; pure ngx_ok) (pass_chain env))
        (filter_chain env s.chain))
