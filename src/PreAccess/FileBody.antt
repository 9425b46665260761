-- ===== src/PreAccess/FileBody.antt =====
-- The bytes of a body that was spilled to a file (src/ngx_http_coraza_pre_access.c).
use coraza_nginx.Common.{
  ℕ, zero, suc, ◌+◌, ◌-◌, ◌≤◌, ◌<◌, ◌≡◌, refl, sym, ap, ◌∙◌, ◌⊎◌, inl, inr, ℤ, pos, negsuc, Bool,
  false, Bool-cases, ltb, ngx_ok, [], ◌∷◌, ◌++◌, append_assoc, append-nil, length, take, drop,
  take-append-take, length-take, length-drop, if◌then◌else◌, arith,
}
use coraza_nginx.Pack.{Bytes}
use coraza_nginx.Runtime.{
  Env, failed, got, State, Trace, M, log_call, read_file, open_file, append_request_body,
  request_bytes,
}
use coraza_nginx.Logging.{log_handler}
use coraza_nginx.Intervention.{process_intervention, settle, deny, install_location}
use coraza_nginx.PreAccess.{round_size, file_chunk, file_loop, opened, append_request_body_file}

-- What `ngx_read_file` does on a file with this content: it fails, or reads at most the bytes asked
-- for from the offset, and no byte only at or past the end of the file.
pub record ReadsFile (env : Env) (fd : ℕ) (content : Bytes) : Type 0 where
  pub reads_prefix :
      (size offset : ℕ) (t : Trace)
      → (env.reads (read_file fd size offset ∷ t) ≡ failed)
        ⊎ ((k : ℕ) × (k ≤ size)
            × (k ≤ length content - offset)
            × (env.reads (read_file fd size offset ∷ t) ≡ got (take k (drop offset content))))

-- A poll submits nothing.
pub process_intervention-request_bytes :
    (env : Env) (early_log : Bool) (s : State)
    → request_bytes (process_intervention env early_log s).1.trace ≡ request_bytes s.trace
unfolding process_intervention settle deny install_location log_handler
process_intervention-request_bytes env early_log s = ground arith

-- The state in which the loop goes on after a chunk that was accepted.
after_chunk : Env → ℕ → ℕ → Bytes → State → State
after_chunk env body_size offset bs s =
    let s₁ = log_call (append_request_body bs) s in
    if ltb (offset + length bs) body_size then (process_intervention env false s₁).1 else s₁

after_chunk-request_bytes :
    (env : Env) (body_size offset : ℕ) (bs : Bytes) (s : State)
    → request_bytes (after_chunk env body_size offset bs s).trace ≡ request_bytes s.trace ++ bs
unfolding after_chunk
after_chunk-request_bytes env body_size offset bs s =
    ground
      (arith, process_intervention-request_bytes env false (log_call (append_request_body bs) s))

-- A round that ends well has submitted its chunk, and the loop goes on behind it.
file_chunk-ok :
    (env : Env) (body_size offset : ℕ) (next : ℕ → M ℤ) (bs : Bytes) (s : State)
    → (file_chunk env body_size offset next (got bs) s).0 ≡ ngx_ok
    → (0 < length bs)
      × (file_chunk env body_size offset next (got bs) s
          ≡ next (offset + length bs) (after_chunk env body_size offset bs s))
unfolding file_chunk after_chunk
file_chunk-ok env body_size offset next [] s e = absurd (ground arith)
file_chunk-ok env body_size offset next (b ∷ bs) s e = ground arith

module _ (env : Env) (fd : ℕ) (content : Bytes) (file : ReadsFile env fd content)
    (body_size : ℕ) where
  file_loop-step :
      (fuel offset : ℕ) (s : State)
      → offset < body_size
      → file_loop env fd body_size (suc fuel) offset s
        ≡ file_chunk env body_size offset
            (file_loop env fd body_size fuel)
            (env.reads (read_file fd (round_size body_size offset) offset ∷ s.trace))
            (log_call (read_file fd (round_size body_size offset) offset) s)
  unfolding file_loop
  file_loop-step fuel offset s lt = ground arith

  file_loop-stop :
      (fuel offset : ℕ) (s : State)
      → body_size ≤ offset
      → file_loop env fd body_size fuel offset s ≡ (ngx_ok, s)
  unfolding file_loop
  file_loop-stop zero offset s le = refl
  file_loop-stop (suc fuel) offset s le = ground arith

  abbrev rest_of : ℕ → Bytes
  rest_of offset = take (body_size - offset) (drop offset content)

  rest_of_stop : (offset : ℕ) (bs : Bytes) → body_size ≤ offset → bs ≡ bs ++ rest_of offset
  rest_of_stop offset bs le =
      let none_left : body_size - offset ≡ 0 = omega arith in rw none_left (sym (append-nil bs))

  abbrev chunk_at : ℕ → ℕ → Bytes
  chunk_at k offset = take k (drop offset content)

  length-chunk_at : (k offset : ℕ) → k ≤ length content - offset → length (chunk_at k offset) ≡ k
  length-chunk_at k offset le =
      omega (arith, length-take k (drop offset content), length-drop offset content)

  -- What a round submitted and what is left to submit are what was left before it.
  chunk-rest_of :
      (k offset : ℕ)
      → k ≤ body_size - offset
      → k ≤ length content - offset
      → chunk_at k offset ++ rest_of (offset + length (chunk_at k offset)) ≡ rest_of offset
  chunk-rest_of k offset fits inside =
      let left : k + (body_size - (offset + k)) ≡ body_size - offset = omega arith in
      rw (length-chunk_at k offset inside) (
        take-append-take k (body_size - (offset + k)) offset content
        ∙ ap (λ n. take n (drop offset content)) left)

  round-request_bytes :
      (k offset : ℕ) (s : State)
      → k ≤ body_size - offset
      → k ≤ length content - offset
      → request_bytes (after_chunk env body_size offset (chunk_at k offset) s).trace
          ++ rest_of (offset + length (chunk_at k offset))
        ≡ request_bytes s.trace ++ rest_of offset
  round-request_bytes k offset s fits inside =
      rw (after_chunk-request_bytes env body_size offset (chunk_at k offset) s, append_assoc)
        (ap (◌++◌ (request_bytes s.trace)) (chunk-rest_of k offset fits inside))

  file_chunk-failed :
      (offset : ℕ) (next : ℕ → M ℤ) (s : State)
      → (file_chunk env body_size offset next failed s).0 ≡ ngx_ok
      → ⊥
  unfolding file_chunk
  file_chunk-failed offset next s e = ground arith

  -- Where the loop ends well, it has submitted the rest of the file, and the file is long enough.
  abbrev Submitted : ℕ → State → ℤ × State → Type 0
  Submitted offset s r =
      (request_bytes r.1.trace ≡ request_bytes s.trace ++ rest_of offset)
      × (offset ≤ length content → body_size ≤ length content)

  pub file_loop-Submitted :
      (fuel offset : ℕ) (s : State)
      → body_size ≤ offset + fuel
      → (file_loop env fd body_size fuel offset s).0 ≡ ngx_ok
      → Submitted offset s (file_loop env fd body_size fuel offset s)
  file_loop-Submitted zero offset s le e =
      rw (file_loop-stop zero offset s (omega arith))
        (rest_of_stop offset _ (omega arith), λ h. omega arith)
  file_loop-Submitted (suc fuel) offset s le e = elim (Bool-cases (ltb offset body_size)) [
    | inr stop ↦
        let past : body_size ≤ offset = ground arith in
        rw (file_loop-stop (suc fuel) offset s past) (rest_of_stop offset _ past, λ h. omega arith)
    | inl more ↦
        let size = round_size body_size offset in
        let s₁ = log_call (read_file fd size offset) s in
        let next = file_loop env fd body_size fuel in
        let step = file_loop-step fuel offset s (ground arith) in
        elim (file.reads_prefix size offset s.trace) [
          | inl bad ↦ absurd (
              file_chunk-failed offset next s₁ (
                ap (λ r. (file_chunk env body_size offset next r s₁).0) (sym bad)
                ∙ ap (λ q. q.0) (sym step)
                ∙ e))
          | inr (k, fits, inside, read) ↦
              let bs = chunk_at k offset in
              let here = step ∙ ap (λ r. file_chunk env body_size offset next r s₁) read in
              let (some_read, on) =
                file_chunk-ok env body_size offset next bs s₁ (ap (λ q. q.0) (sym here) ∙ e) in
              let whole = here ∙ on in
              let in_round : k ≤ body_size - offset = ground arith in
              let (rest, long) =
                file_loop-Submitted fuel (offset + length bs)
                  (after_chunk env body_size offset bs s₁) (omega arith)
                  (ap (λ q. q.0) (sym whole) ∙ e) in
              (
                ap (λ q. request_bytes q.1.trace) whole
                    ∙ rest
                    ∙ round-request_bytes k offset s₁ in_round inside,
                λ h. long (omega (arith, length-chunk_at k offset inside)),
              )
        ]
  ]

-- The file's first bytes went to the engine, and there are enough of them.
abbrev Whole : Bytes → ℕ → State → State → Type 0
Whole content body_size s t =
    (request_bytes t.trace ≡ request_bytes s.trace ++ take body_size content)
    × (body_size ≤ length content)

opened-Whole :
    (env : Env) (content : Bytes) (body_size : ℕ) (fd : ℤ) (s : State)
    → ((n : ℕ) → ReadsFile env n content)
    → (opened env body_size fd s).0 ≡ ngx_ok
    → Whole content body_size s (opened env body_size fd s).1
unfolding opened
opened-Whole env content body_size (negsuc n) s file e = absurd (ground arith)
opened-Whole env content body_size (pos fd) s file e =
    let whole : body_size - 0 ≡ body_size = omega arith in
    ground (
      arith,
      whole,
      file_loop-Submitted env fd content (file fd) body_size body_size 0 s (omega arith),
    )

-- A spilled body that is accepted, from a file that reads as `content`, went to the engine byte for
-- byte, up to its size and in order; and the file did hold that many bytes, for a file that ends
-- early is refused.
pub append_request_body_file-Whole :
    (env : Env) (content : Bytes) (body_size : ℕ) (s : State)
    → ((n : ℕ) → ReadsFile env n content)
    → (append_request_body_file env (pos body_size) s).0 ≡ ngx_ok
    → Whole content body_size s (append_request_body_file env (pos body_size) s).1
unfolding append_request_body_file
append_request_body_file-Whole env content body_size s file e =
    let t = log_call open_file s in
    ground (
      arith,
      append-nil (request_bytes s.trace),
      opened-Whole env content body_size (env.results t.trace) t file,
    )
