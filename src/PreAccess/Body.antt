-- ===== src/PreAccess/Body.antt =====
-- The bytes that the handler of src/ngx_http_coraza_pre_access.c submits.
use coraza_nginx.Common.{
  ℕ, suc, ◌≡◌, inl, inr, ℤ, pos, negsuc, true, false, is_num, ngx_declined, Option, none, some,
  List, [], ◌∷◌, ◌++◌, append_assoc, append-nil, length, length_zero, internal_server_error,
  Bool-cases, ltb, take, if◌then◌else◌, arith,
}
use coraza_nginx.Pack.{Bytes, int_max}
use coraza_nginx.Runtime.{
  Buf, Env, State, M, RequestBody, log_call, count, process_request_body, append_request_body,
  is_process_request_body, request_bytes,
}
use coraza_nginx.Intervention.{process_intervention, poll_after_process}
use coraza_nginx.Intervention.Frame.{process_intervention-Quiet}
use coraza_nginx.PreAccess.{
  react, process_request_body_phase, append_request_body_file, walk, finish_body, submit_parts,
  submit_body, inspect_body,
}
use coraza_nginx.PreAccess.FileBody.{ReadsFile, append_request_body_file-Whole}
use coraza_nginx.PreAccess.FileFrame.{append_request_body_file-Framed}
use coraza_nginx.PreAccess.Verdict.{sent}

abbrev pub phases : State → ℕ
phases s = count is_process_request_body s.trace

-- The bytes of a chain in memory, up to its last buffer.
unfoldable pub chain_bytes : List Buf → Bytes
chain_bytes [] = []
chain_bytes (b ∷ bs) = b.bytes ++ (if b.last_buf then [] else chain_bytes bs)

-- If the answer is NGX_DECLINED, these bytes were submitted, and then phase 2 was run once.
abbrev pub Inspected : Bytes → State → ℤ × State → Type 0
Inspected bs s r =
    r.0 ≡ ngx_declined
    → (request_bytes r.1.trace ≡ request_bytes s.trace ++ bs) × (phases r.1 ≡ suc (phases s))

phase-frame :
    (env : Env) (s : State)
    → (request_bytes (process_request_body_phase env s).1.trace ≡ request_bytes s.trace)
      × (phases (process_request_body_phase env s).1 ≡ suc (phases s))
unfolding process_request_body_phase poll_after_process
phase-frame env s =
    ground (arith, process_intervention-Quiet env false (log_call process_request_body s))

finish_body-Inspected :
    (env : Env) (s : State) → s.req.error_page ≡ false → Inspected [] s (finish_body env s)
unfolding finish_body react
finish_body-Inspected env s e =
    let s₁ = (process_intervention env false s).1 in
    ground (
      arith,
      process_intervention-Quiet env false s,
      phase-frame env s₁,
      append-nil (request_bytes s.trace),
    )

sent-bytes :
    (b : Buf) (s : State) → request_bytes (sent b s).trace ≡ request_bytes s.trace ++ b.bytes
sent-bytes b s = ground (arith, length_zero b.bytes, append-nil (request_bytes s.trace))

-- What a round of the walk comes to.
pub data Round (env : Env) (k : M ℤ) (b : Buf) (bs : List Buf) (s : State) (r : ℤ × State)
    : Type 0 where
  refused :
      r.0 ≡ internal_server_error
      → phases r.1 ≡ phases s
      → r.1.ctx.body_submitted ≡ s.ctx.body_submitted
      → Round env k b bs s r
  last : b.last_buf ≡ true → r ≡ k (sent b s) → Round env k b bs s r
  polled :
      b.last_buf ≡ false
      → r
        ≡ react
            (process_intervention env false (sent b s)).0
            (walk env bs k)
            (process_intervention env false (sent b s)).1
      → Round env k b bs s r

pub walk-Round :
    (env : Env) (k : M ℤ) (b : Buf) (bs : List Buf) (s : State)
    → Round env k b bs s (walk env (b ∷ bs) k s)
unfolding walk
walk-Round env k b bs s = elim (Bool-cases (ltb int_max (length b.bytes))) [
  | inl big ↦ refused (ground arith) (ground arith) (ground arith)
  | inr fits ↦ elim (Bool-cases (ltb 0 (length b.bytes))) [
    | inr empty ↦ elim (Bool-cases b.last_buf) [
      | inl l ↦ last l (ground arith)
      | inr l ↦ polled l (ground arith)
    ]
    | inl some_bytes ↦
        elim (Bool-cases (is_num 0 (env.results (append_request_body b.bytes ∷ s.trace)))) [
          | inr no_room ↦ refused (ground arith) (ground arith) (ground arith)
          | inl accepted ↦ elim (Bool-cases b.last_buf) [
            | inl l ↦ last l (ground arith)
            | inr l ↦ polled l (ground arith)
          ]
        ]
  ]
]

walk_round-Inspected :
    (env : Env) (b : Buf) (bs : List Buf) (s : State) (r : ℤ × State)
    → s.req.error_page ≡ false
    → ((t : State)
        → t.req.error_page ≡ false
        → Inspected (chain_bytes bs) t (walk env bs (finish_body env) t))
    → Round env (finish_body env) b bs s r
    → Inspected (chain_bytes (b ∷ bs)) s r
unfolding react chain_bytes
walk_round-Inspected env b bs s r e ih (refused p q n) = λ d. cc
walk_round-Inspected env b bs s r e ih (last l p) = ground (
  arith,
  sent-bytes b s,
  finish_body-Inspected env (sent b s),
  append_assoc (request_bytes s.trace) b.bytes [],
  append-nil b.bytes,
  append-nil (request_bytes s.trace ++ b.bytes),
)
walk_round-Inspected env b bs s r e ih (polled l p) =
    let s₁ = sent b s in
    ground (
      arith,
      sent-bytes b s,
      process_intervention-Quiet env false s₁,
      ih (process_intervention env false s₁).1,
      append_assoc (request_bytes s.trace) b.bytes (chain_bytes bs),
    )

walk-Inspected :
    (env : Env) (bs : List Buf) (s : State)
    → s.req.error_page ≡ false
    → Inspected (chain_bytes bs) s (walk env bs (finish_body env) s)
unfolding walk chain_bytes
walk-Inspected env [] s e = finish_body-Inspected env s e
walk-Inspected env (b ∷ bs) s e =
    walk_round-Inspected env b bs s _ e (walk-Inspected env bs)
      (walk-Round env (finish_body env) b bs s)

-- The bytes of a request's body, where a spilled body's file has this content.
unfoldable pub part_bytes : Bytes → List Buf → Option ℤ → Bytes
part_bytes content bufs (some (pos size)) = take size content
part_bytes content bufs (some (negsuc n)) = []
part_bytes content bufs none = chain_bytes bufs

abbrev pub body_bytes : Bytes → RequestBody → Bytes
body_bytes content b = part_bytes content b.bufs b.temp_file

submit_file-Inspected :
    (env : Env) (content : Bytes) (bufs : List Buf) (size : ℕ) (s : State)
    → ((n : ℕ) → ReadsFile env n content)
    → s.req.error_page ≡ false
    → Inspected (take size content) s (submit_parts env bufs (some (pos size)) s)
unfolding submit_parts
submit_file-Inspected env content bufs size s file e =
    let s₁ = (append_request_body_file env (pos size) s).1 in
    ground (
      arith,
      append_request_body_file-Whole env content size s file,
      append_request_body_file-Framed env (pos size) s,
      finish_body-Inspected env s₁,
      append-nil (request_bytes s.trace ++ take size content),
    )

submit_parts-Inspected :
    (env : Env) (content : Bytes) (bufs : List Buf) (size : Option ℤ) (s : State)
    → ((n : ℕ) → ReadsFile env n content)
    → s.req.error_page ≡ false
    → Inspected (part_bytes content bufs size) s (submit_parts env bufs size s)
unfolding submit_parts part_bytes append_request_body_file
submit_parts-Inspected env content bufs (some (pos size)) s file e =
    submit_file-Inspected env content bufs size s file e
submit_parts-Inspected env content bufs (some (negsuc n)) s file e = λ d. cc
submit_parts-Inspected env content bufs none s file e = walk-Inspected env bufs s e

-- The state in which the parts of the body are submitted.
abbrev pub marked : State → State
marked s = record s {
  ctx = record (s.ctx) { body_submitted = true };
  req = record (s.req) { runs_phases_on_write = true };
}

inspect_body-Inspected :
    (env : Env) (content : Bytes) (b : RequestBody) (s : State)
    → ((n : ℕ) → ReadsFile env n content)
    → s.ctx.waiting_more_body ≡ false
    → s.ctx.body_submitted ≡ false
    → s.req.error_page ≡ false
    → s.req.request_body ≡ some b
    → Inspected (body_bytes content b) s (inspect_body env s)
unfolding inspect_body submit_body
inspect_body-Inspected env content b s file w n e body =
    ground (arith, submit_parts-Inspected env content b.bufs b.temp_file (marked s) file)

-- No evasion: if nothing of this body was submitted before, no error page is being served and the
-- handler lets the request go on, then the engine was given every byte of the body, in order (in
-- memory up to the last buffer, or spilled to a file that reads as `content`), and phase 2 was run
-- exactly once.
pub inspect_body-request_bytes :
    (env : Env) (content : Bytes) (b : RequestBody) (s : State)
    → ((n : ℕ) → ReadsFile env n content)
    → s.ctx.waiting_more_body ≡ false
    → s.ctx.body_submitted ≡ false
    → s.req.error_page ≡ false
    → s.req.request_body ≡ some b
    → (inspect_body env s).0 ≡ ngx_declined
    → (request_bytes (inspect_body env s).1.trace ≡ request_bytes s.trace ++ body_bytes content b)
      × (phases (inspect_body env s).1 ≡ suc (phases s))
inspect_body-request_bytes env content b s file w n e body d =
    inspect_body-Inspected env content b s file w n e body d
