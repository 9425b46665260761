-- ===== src/BodyFilter/Payload.antt =====
-- What the stages of the loop do to the chain that is held back, for buffers in memory.
use coraza_nginx.Common.{
  ℕ, ◌≡◌, refl, sym, ap, ◌∙◌, ℤ, true, false, Bool-cases, inl, inr, eq_code, ngx_ok, Option, none,
  some, List, [], ◌∷◌, ◌++◌, append_assoc, length, arith,
}
use coraza_nginx.Pack.{Bytes}
use coraza_nginx.Runtime.{
  Buf, Env, State, M, log_call, append_response_body, process_response_body, alloc_chain_link,
  alloc_chunk, calloc_buf, pnalloc,
}
use coraza_nginx.Intervention.{process_intervention, poll_after_process}
use coraza_nginx.Intervention.Frame.{process_intervention-Quiet}
use coraza_nginx.BodyFilter.File.{read_body_data, append_response_body_file}
use coraza_nginx.BodyFilter.Stages.{
  Flow, resume, internal_error, react_filter, submit_bytes, submit_buf, inspect_stage, phase_stage,
}
use coraza_nginx.BodyFilter.Filter.{copied, hold, copy_buf, delay_stage}
use coraza_nginx.BodyFilter.Still.{Still, direct_loop-Still, read_body_data-Still}
use coraza_nginx.BodyFilter.Ends.{poll_stage}

-- The bytes of a chain in memory.
unfoldable pub payload : List Buf → Bytes
payload [] = []
payload (b ∷ bs) = b.bytes ++ payload bs

pub payload-append : (xs ys : List Buf) → payload (xs ++ ys) ≡ payload xs ++ payload ys
unfolding payload
payload-append [] ys = refl
payload-append (x ∷ xs) ys =
    ap (◌++◌ x.bytes) (payload-append xs ys) ∙ sym (append_assoc x.bytes (payload xs) (payload ys))

abbrev pub AllInMemory : List Buf → Type 0
AllInMemory [] = Unit {0}
AllInMemory (b ∷ bs) = (b.in_memory ≡ true) × AllInMemory bs

-- What a stage that goes on leaves alone.
pub record Waits (s t : State) : Type 0 where
  pub same_pending : t.ctx.pending_chain ≡ s.ctx.pending_chain
  pub same_bytes : t.ctx.pending_bytes ≡ s.ctx.pending_bytes
  pub same_delayed : t.ctx.headers_delayed ≡ s.ctx.headers_delayed
  pub same_error_page : t.req.error_page ≡ s.req.error_page

abbrev pub Goes : State → Flow × State → Type 0
Goes s (none, t) = Waits s t
Goes s (some rc, t) = Unit {0}

internal_error-Goes : (env : Env) (s t : State) → Goes s (internal_error env t)
unfolding internal_error
internal_error-Goes env s t = tt

Goes-after : (s t : State) (q : Flow × State) → Waits s t → Goes t q → Goes s q
Goes-after s t (none, u) e k = ground arith
Goes-after s t (some rc, u) e k = tt

react_filter-Goes : (env : Env) (ret : ℤ) (s : State) → Goes s (react_filter env ret s)
unfolding react_filter internal_error
react_filter-Goes env ret s = ground arith

poll-Waits : (env : Env) (s : State) → Waits s (process_intervention env false s).1
poll-Waits env s = ground (arith, process_intervention-Quiet env false s)

poll-Goes :
    (env : Env) (s : State)
    → let (ret, t) = process_intervention env false s in Goes s (react_filter env ret t)
poll-Goes env s =
    let (ret, t) = process_intervention env false s in
    Goes-after s t (react_filter env ret t) (poll-Waits env s) (react_filter-Goes env ret t)

submit_bytes-Goes : (env : Env) (b : Option Bytes) (s : State) → Goes s (submit_bytes env b s)
unfolding submit_bytes
submit_bytes-Goes env none s = internal_error-Goes env s s
submit_bytes-Goes env (some bytes) s =
    ground (arith, internal_error-Goes env s (log_call (append_response_body bytes) s))

Still-Waits : {s t : State} → Still s t → Waits s t
Still-Waits h = ground arith

-- A file range that was submitted whole.
file-Waits :
    (env : Env) (b : Buf) (s : State)
    → let (rc, t) = append_response_body_file env b s in eq_code ngx_ok rc ≡ true → Waits s t
unfolding append_response_body_file
file-Waits env b s ok = ground (arith, direct_loop-Still env b (log_call alloc_chunk s), ok)

submit_buf-Goes : (env : Env) (b : Buf) (s : State) → Goes s (submit_buf env b s)
unfolding submit_buf
submit_buf-Goes env b s =
    let (bytes, t) = read_body_data env b s in
    ground (
      arith,
      internal_error-Goes env s s,
      file-Waits env b s,
      Goes-after s t (submit_bytes env bytes t) (Still-Waits (read_body_data-Still env b s))
          (submit_bytes-Goes env bytes t),
    )

resume-Goes :
    (s t : State) (r : Flow) (next : M Flow)
    → Goes s (r, t)
    → Goes t (next t)
    → Goes s (resume r next t)
resume-Goes s t (some rc) next e h = tt
resume-Goes s t none next e h = Goes-after s t (next t) e h

pub inspect_stage-Goes : (env : Env) (b : Buf) (s : State) → Goes s (inspect_stage env b s)
unfolding inspect_stage
inspect_stage-Goes env b s = elim (Bool-cases s.ctx.response_body_processable) [
  | inr off ↦ ground arith
  | inl on ↦
      let (r, t) = submit_buf env b s in
      ground (arith, resume-Goes s t r (poll_stage env) (submit_buf-Goes env b s) (poll-Goes env t))
]

pub phase_stage-Goes : (env : Env) (b : Buf) (s : State) → Goes s (phase_stage env b s)
unfolding phase_stage poll_after_process
phase_stage-Goes env b s =
    let s₁ = log_call process_response_body s in
    ground (arith, internal_error-Goes env s s₁, poll-Goes env s₁, react_filter-Goes env ngx_ok s₁)

-- A buffer with these bytes is put at the end of the pending chain, or the filter returns.
abbrev pub Adds : Bytes → State → Flow × State → Type 0
Adds bytes s (none, t) =
    (x : Buf) × (t.ctx.pending_chain ≡ s.ctx.pending_chain ++ (x ∷ []))
    × (x.bytes ≡ bytes)
    × (t.ctx.headers_delayed ≡ true)
    × (t.req.error_page ≡ s.req.error_page)
Adds bytes s (some rc, t) = Unit {0}

internal_error-Adds :
    (env : Env) (bytes : Bytes) (s t : State) → Adds bytes s (internal_error env t)
unfolding internal_error
internal_error-Adds env bytes s t = tt

hold-Adds :
    (x : Buf) (size i : ℕ) (b : Buf) (s t : State)
    → t.ctx ≡ s.ctx
    → t.req.error_page ≡ s.req.error_page
    → s.ctx.headers_delayed ≡ true
    → Adds x.bytes s (hold x size i b t)
unfolding hold
hold-Adds x size i b s t c e d = (x, ground arith, refl, ground arith, e)

copy_buf-Adds :
    (env : Env) (bytes : Bytes) (i : ℕ) (b : Buf) (s t : State)
    → t.ctx ≡ s.ctx
    → t.req.error_page ≡ s.req.error_page
    → s.ctx.headers_delayed ≡ true
    → Adds bytes s (copy_buf env (some bytes) i b t)
unfolding copy_buf
copy_buf-Adds env bytes i b s t c e d =
    let t₁ = log_call calloc_buf t in
    let t₂ = log_call (pnalloc (length bytes)) t₁ in
    ground (
      arith,
      internal_error-Adds env bytes s t₁,
      internal_error-Adds env bytes s t₂,
      hold-Adds (copied b bytes) 0 i b s t₁ c e d,
      hold-Adds (copied b bytes) (length bytes) i b s t₂ c e d,
    )

read_body_data-in_memory :
    (env : Env) (b : Buf) (s : State)
    → b.in_memory ≡ true
    → read_body_data env b s ≡ (some b.bytes, s)
unfolding read_body_data
read_body_data-in_memory env b s m = ground arith

-- The state when the last buffer's link is in the pending chain.
abbrev linked : Buf → State → State
linked b s = record s { ctx = record (s.ctx) { pending_chain = s.ctx.pending_chain ++ (b ∷ []) } }

linked-Adds :
    (b : Buf) (s : State) → s.ctx.headers_delayed ≡ true → Adds b.bytes s (none, linked b s)
linked-Adds b s d = (b, refl, refl, d, refl)

pub delay_stage-Adds :
    (env : Env) (i : ℕ) (b : Buf) (s : State)
    → b.in_memory ≡ true
    → s.ctx.headers_delayed ≡ true
    → Adds b.bytes s (delay_stage env i b s)
unfolding delay_stage
delay_stage-Adds env i b s m d = elim (Bool-cases b.last_buf) [
  | inl l ↦
      let s₁ = log_call alloc_chain_link s in
      ground (arith, internal_error-Adds env b.bytes s s₁, linked-Adds b s₁ d)
  | inr l ↦
      let s₁ = log_call alloc_chain_link s in
      ground (
        arith,
        internal_error-Adds env b.bytes s s₁,
        read_body_data-in_memory env b s₁ m,
        copy_buf-Adds env b.bytes i b s s₁ refl refl d,
      )
]
