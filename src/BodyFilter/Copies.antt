-- ===== src/BodyFilter/Copies.antt =====
-- The chain that is held back (src/ngx_http_coraza_body_filter.c), against the chains that came, and
-- the counter against its bytes.
use coraza_nginx.Common.{
  ℕ, ◌+◌, ◌%◌, ◌≡◌, refl, sym, ap, ◌∙◌, true, false, not, ◌&&◌, Bool-cases, inl, inr, Option, none,
  some, List, [], ◌∷◌, ◌++◌, append_assoc, append-nil, length, if◌then◌else◌, arith,
}
use coraza_nginx.Pack.{Bytes}
use coraza_nginx.Runtime.{Buf, Ctx, Env, State, M, log_call, alloc_chain_link, calloc_buf, pnalloc}
use coraza_nginx.BodyFilter.File.{size_mod, file_range, read_body_data}
use coraza_nginx.BodyFilter.Stages.{
  Flow, is_pure_file, resume, internal_error, inspect_stage, phase_stage,
}
use coraza_nginx.BodyFilter.Filter.{copied, hold, copy_buf, delay_stage, filter_loop}
use coraza_nginx.BodyFilter.Still.{read_body_data-Still}
use coraza_nginx.BodyFilter.Payload.{Waits, Goes, inspect_stage-Goes, phase_stage-Goes}

-- The buffer that is held for a buffer of the chain: a last buffer itself, a range of a lasting file
-- as a range, and otherwise a copy of the bytes as they are read.
pub data Copy (env : Env) (b x : Buf) : Type 0 where
  itself : b.last_buf ≡ true → x ≡ b → Copy env b x
  range :
      b.last_buf ≡ false
      → is_pure_file b && not b.temp_file ≡ true
      → x ≡ record b { last_buf = false }
      → Copy env b x
  read :
      (bytes : Bytes) (u : State)
      → b.last_buf ≡ false
      → (read_body_data env b u).0 ≡ some bytes
      → x ≡ copied b bytes
      → Copy env b x

-- One for each, in order.
abbrev pub Copies : Env → List Buf → List Buf → Type 0
Copies env [] [] = Unit {0}
Copies env [] (x ∷ xs) = ⊥
Copies env (b ∷ bs) [] = ⊥
Copies env (b ∷ bs) (x ∷ xs) = Copy env b x × Copies env bs xs

-- The bytes of a held buffer; a last buffer, which ends the hold, is left out of the account.
abbrev buf_size : Buf → ℕ
buf_size x = if x.last_buf then 0 else if x.in_memory then length x.bytes else file_range x

unfoldable pub held_size : List Buf → ℕ
held_size [] = 0
held_size (x ∷ xs) = buf_size x + held_size xs

-- The counter has the bytes of the held chain, as a `size_t`: it starts at 0, with no chain.
abbrev pub Counted : Ctx → Type 0
Counted c = c.pending_bytes ≡ held_size c.pending_chain % size_mod

held_size-push : (xs : List Buf) (x : Buf) → held_size (xs ++ (x ∷ [])) ≡ held_size xs + buf_size x
unfolding held_size
held_size-push [] x = omega arith
held_size-push (y ∷ ys) x = omega (arith, held_size-push ys x)

-- The buffer's stand-in is put at the end of what is held and counted, or the filter returns.
abbrev Links : Env → Buf → State → Flow × State → Type 0
Links env b s (none, t) =
    (x : Buf) × Copy env b x
    × (t.ctx.pending_chain ≡ s.ctx.pending_chain ++ (x ∷ []))
    × Counted t.ctx
    × (t.ctx.headers_delayed ≡ true)
Links env b s (some rc, t) = Unit {0}

internal_error-Links : (env : Env) (b : Buf) (s t : State) → Links env b s (internal_error env t)
unfolding internal_error
internal_error-Links env b s t = tt

hold-Links :
    (env : Env) (b x : Buf) (size i : ℕ) (s t : State)
    → t.ctx ≡ s.ctx
    → s.ctx.headers_delayed ≡ true
    → Counted s.ctx
    → Copy env b x
    → buf_size x ≡ size
    → Links env b s (hold x size i b t)
unfolding hold
hold-Links env b x size i s t c d k copy e = (
  x,
  copy,
  ground arith,
  omega (
    arith,
    ap (λ y. y.pending_bytes) c,
    ap (λ y. held_size y.pending_chain) c,
    k,
    e,
    held_size-push t.ctx.pending_chain x,
  ),
  ground arith,
)

copied-size : (b : Buf) (bytes : Bytes) → buf_size (copied b bytes) ≡ length bytes
copied-size b [] = refl
copied-size b (c ∷ cs) = ground arith

copy_buf-Links :
    (env : Env) (bytes : Option Bytes) (i : ℕ) (b : Buf) (s t u : State)
    → t.ctx ≡ s.ctx
    → s.ctx.headers_delayed ≡ true
    → Counted s.ctx
    → b.last_buf ≡ false
    → (read_body_data env b u).0 ≡ bytes
    → Links env b s (copy_buf env bytes i b t)
unfolding copy_buf
copy_buf-Links env none i b s t u c d k l e = internal_error-Links env b s t
copy_buf-Links env (some []) i b s t u c d k l e =
    let t₁ = log_call calloc_buf t in
    let kept = hold-Links env b (copied b []) 0 i s t₁ c d k (read [] u l e refl) refl in
    ground (arith, internal_error-Links env b s t₁, kept)
copy_buf-Links env (some (x ∷ xs)) i b s t u c d k l e =
    let bytes = x ∷ xs in
    let t₁ = log_call calloc_buf t in
    let t₂ = log_call (pnalloc (length bytes)) t₁ in
    let kept =
      hold-Links env b (copied b bytes) (length bytes) i s t₂ c d k (read bytes u l e refl)
        (copied-size b bytes) in
    ground (arith, internal_error-Links env b s t₁, internal_error-Links env b s t₂, kept)

-- The state when the last buffer's link is in the pending chain.
abbrev linked : Buf → State → State
linked b s = record s { ctx = record (s.ctx) { pending_chain = s.ctx.pending_chain ++ (b ∷ []) } }

linked-Links :
    (env : Env) (b : Buf) (s : State)
    → s.ctx.headers_delayed ≡ true
    → Counted s.ctx
    → b.last_buf ≡ true
    → Links env b s (none, linked b s)
linked-Links env b s d k l =
    let same : buf_size b ≡ 0 = ground (arith, l) in
    (b, itself l refl, refl, omega (arith, k, held_size-push s.ctx.pending_chain b, same), d)

range-size :
    (b : Buf) → is_pure_file b ≡ true → buf_size (record b { last_buf = false }) ≡ file_range b
range-size b p = ground (arith, p)

delay_stage-Links :
    (env : Env) (i : ℕ) (b : Buf) (s : State)
    → s.ctx.headers_delayed ≡ true
    → Counted s.ctx
    → Links env b s (delay_stage env i b s)
unfolding delay_stage
delay_stage-Links env i b s d k =
    let s₁ = log_call alloc_chain_link s in
    let fails = internal_error-Links env b s s₁ in
    elim (Bool-cases b.last_buf) [
      | inl l ↦ ground (arith, fails, linked-Links env b s₁ d k l)
      | inr l ↦ elim (Bool-cases (is_pure_file b && not b.temp_file)) [
        | inl p ↦
            let t = log_call calloc_buf s₁ in
            let pure_file : is_pure_file b ≡ true = ground (arith, p) in
            let kept =
              hold-Links env b (record b { last_buf = false }) (file_range b) i s t refl d k
                (range l p refl) (range-size b pure_file) in
            ground (arith, fails, internal_error-Links env b s t, kept, l, p)
        | inr p ↦
            let (bytes, t) = read_body_data env b s₁ in
            let still = read_body_data-Still env b s₁ in
            let kept = copy_buf-Links env bytes i b s t s₁ still.same_ctx d k l refl in
            ground (arith, fails, kept, l, p)
      ]
    ]

-- After the loop, unless it returns: a stand-in for each buffer of the chain is held behind what was
-- held, and counted.
abbrev pub Holds : Env → List Buf → State → Flow × State → Type 0
Holds env bs s (none, t) =
    (xs : List Buf) × Copies env bs xs
    × (t.ctx.pending_chain ≡ s.ctx.pending_chain ++ xs)
    × Counted t.ctx
Holds env bs s (some rc, t) = Unit {0}

Holds-after :
    (env : Env) (bs : List Buf) (s t : State) (q : Flow × State)
    → Waits s t
    → Holds env bs t q
    → Holds env bs s q
Holds-after env bs s t (none, u) w (xs, c, p, k) = (xs, c, p ∙ ap (λ y. y ++ xs) w.same_pending, k)
Holds-after env bs s t (some rc, u) w h = tt

resume-Holds :
    (env : Env) (bs : List Buf) (s t : State) (r : Flow) (next : M Flow)
    → Goes s (r, t)
    → (Waits s t → Holds env bs t (next t))
    → Holds env bs s (resume r next t)
resume-Holds env bs s t (some rc) next g h = tt
resume-Holds env bs s t none next g h = Holds-after env bs s t (next t) g (h g)

Holds-step :
    (env : Env) (b : Buf) (bs : List Buf) (s t : State) (q : Flow × State)
    → Links env b s (none, t)
    → Holds env bs t q
    → Holds env (b ∷ bs) s q
Holds-step env b bs s t (some rc, u) l h = tt
Holds-step env b bs s t (none, u) (x, copy, p, k, d) (xs, c, e, n) =
    (x ∷ xs, (copy, c), e ∙ ap (λ y. y ++ xs) p ∙ append_assoc s.ctx.pending_chain (x ∷ []) xs, n)

resume-Links :
    (env : Env) (b : Buf) (bs : List Buf) (s t : State) (r : Flow) (next : M Flow)
    → Links env b s (r, t)
    → (t.ctx.headers_delayed ≡ true → Counted t.ctx → Holds env bs t (next t))
    → Holds env (b ∷ bs) s (resume r next t)
resume-Links env b bs s t (some rc) next l h = tt
resume-Links env b bs s t none next (x, copy, p, k, d) h =
    Holds-step env b bs s t (next t) (x, copy, p, k, d) (h d k)

Waits-Counted : (s t : State) → Waits s t → Counted s.ctx → Counted t.ctx
Waits-Counted s t w k = w.same_bytes ∙ k ∙ ap (λ xs. held_size xs % size_mod) (sym w.same_pending)

pub filter_loop-Holds :
    (env : Env) (i : ℕ) (bs : List Buf) (s : State)
    → s.ctx.headers_delayed ≡ true
    → Counted s.ctx
    → Holds env bs s (filter_loop env i bs s)
unfolding filter_loop
filter_loop-Holds env i [] s d k = ([], tt, sym (append-nil s.ctx.pending_chain), k)
filter_loop-Holds env i (b ∷ bs) s d k =
    let (r₁, s₁) = inspect_stage env b s in
    let (r₂, s₂) = phase_stage env b s₁ in
    let (r₃, s₃) = delay_stage env i b s₂ in
    resume-Holds env (b ∷ bs) s s₁ r₁ _ (inspect_stage-Goes env b s) λ p.
      let d₁ = p.same_delayed ∙ d in
      let k₁ = Waits-Counted s s₁ p k in
      resume-Holds env (b ∷ bs) s₁ s₂ r₂ _ (phase_stage-Goes env b s₁) λ q.
        let d₂ = q.same_delayed ∙ d₁ in
        let k₂ = Waits-Counted s₁ s₂ q k₁ in
        resume-Links env b bs s₂ s₃ r₃ _ (delay_stage-Links env i b s₂ d₂ k₂)
          λ d₃ k₃. filter_loop-Holds env (i + 1) bs s₃ d₃ k₃
