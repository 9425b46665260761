-- ===== src/BodyFilter/Range.antt =====
-- The bytes of a file range of the response (src/ngx_http_coraza_body_filter.c).
use coraza_nginx.Common.{
  ℕ, zero, suc, ◌+◌, ◌-◌, ◌≤◌, ◌<◌, ◌≡◌, refl, sym, ap, ◌∙◌, inl, inr, ℤ, Bool-cases, ltb, ngx_ok,
  [], ◌∷◌, ◌++◌, append_assoc, append-nil, length, take, drop, take-append-take, length-take,
  length-drop, arith,
}
use coraza_nginx.Pack.{Bytes}
use coraza_nginx.Runtime.{
  Buf, Env, failed, got, State, M, log_call, read_file, append_response_body, alloc_chunk,
  directio_off, response_bytes,
}
use coraza_nginx.PreAccess.FileBody.{ReadsFile}
use coraza_nginx.BodyFilter.File.{
  response_round, response_chunk, response_loop, direct_loop, append_response_body_file,
}

-- A round that ends well has submitted its chunk, and the loop goes on behind it.
response_chunk-ok :
    (env : Env) (offset : ℕ) (next : ℕ → M ℤ) (bs : Bytes) (s : State)
    → (response_chunk env offset next (got bs) s).0 ≡ ngx_ok
    → (0 < length bs)
      × (response_chunk env offset next (got bs) s
          ≡ next (offset + length bs) (log_call (append_response_body bs) s))
unfolding response_chunk
response_chunk-ok env offset next [] s e = absurd (ground arith)
response_chunk-ok env offset next (b ∷ bs) s e = ground arith

response_chunk-failed :
    (env : Env) (offset : ℕ) (next : ℕ → M ℤ) (s : State)
    → (response_chunk env offset next failed s).0 ≡ ngx_ok
    → ⊥
unfolding response_chunk
response_chunk-failed env offset next s e = ground arith

module _ (env : Env) (fd : ℕ) (content : Bytes) (file : ReadsFile env fd content)
    (file_last : ℕ) where
  abbrev rest_of : ℕ → Bytes
  rest_of offset = take (file_last - offset) (drop offset content)

  abbrev chunk_at : ℕ → ℕ → Bytes
  chunk_at k offset = take k (drop offset content)

  response_loop-step :
      (fuel offset : ℕ) (s : State)
      → offset < file_last
      → response_loop env fd file_last (suc fuel) offset s
        ≡ response_chunk env offset
            (response_loop env fd file_last fuel)
            (env.reads (read_file fd (response_round file_last offset) offset ∷ s.trace))
            (log_call (read_file fd (response_round file_last offset) offset) s)
  unfolding response_loop
  response_loop-step fuel offset s lt = ground arith

  response_loop-stop :
      (fuel offset : ℕ) (s : State)
      → file_last ≤ offset
      → response_loop env fd file_last fuel offset s ≡ (ngx_ok, s)
  unfolding response_loop
  response_loop-stop zero offset s le = refl
  response_loop-stop (suc fuel) offset s le = ground arith

  rest_of_stop : (offset : ℕ) (bs : Bytes) → file_last ≤ offset → bs ≡ bs ++ rest_of offset
  rest_of_stop offset bs le =
      let none_left : file_last - offset ≡ 0 = omega arith in rw none_left (sym (append-nil bs))

  length-chunk_at : (k offset : ℕ) → k ≤ length content - offset → length (chunk_at k offset) ≡ k
  length-chunk_at k offset le =
      omega (arith, length-take k (drop offset content), length-drop offset content)

  chunk-rest_of :
      (k offset : ℕ) (before : Bytes)
      → k ≤ file_last - offset
      → k ≤ length content - offset
      → (before ++ chunk_at k offset) ++ rest_of (offset + length (chunk_at k offset))
        ≡ before ++ rest_of offset
  chunk-rest_of k offset before fits inside =
      let left : k + (file_last - (offset + k)) ≡ file_last - offset = omega arith in
      rw (length-chunk_at k offset inside, append_assoc)
        (ap (◌++◌ before) (
          take-append-take k (file_last - (offset + k)) offset content
          ∙ ap (λ n. take n (drop offset content)) left))

  response_loop-response_bytes :
      (fuel offset : ℕ) (s : State)
      → file_last ≤ offset + fuel
      → (response_loop env fd file_last fuel offset s).0 ≡ ngx_ok
      → response_bytes (response_loop env fd file_last fuel offset s).1.trace
        ≡ response_bytes s.trace ++ rest_of offset
  response_loop-response_bytes zero offset s le e =
      rw (response_loop-stop zero offset s (omega arith)) (rest_of_stop offset _ (omega arith))
  response_loop-response_bytes (suc fuel) offset s le e = elim (Bool-cases (ltb offset file_last)) [
    | inr stop ↦
        let past : file_last ≤ offset = ground arith in
        rw (response_loop-stop (suc fuel) offset s past) (rest_of_stop offset _ past)
    | inl more ↦
        let size = response_round file_last offset in
        let s₁ = log_call (read_file fd size offset) s in
        let next = response_loop env fd file_last fuel in
        let step = response_loop-step fuel offset s (ground arith) in
        elim (file.reads_prefix size offset s.trace) [
          | inl bad ↦ absurd (
              response_chunk-failed env offset next s₁ (
                ap (λ r. (response_chunk env offset next r s₁).0) (sym bad)
                ∙ ap (λ q. q.0) (sym step)
                ∙ e))
          | inr (k, fits, inside, read) ↦
              let bs = chunk_at k offset in
              let here = step ∙ ap (λ r. response_chunk env offset next r s₁) read in
              let (some_read, on) =
                response_chunk-ok env offset next bs s₁ (ap (λ q. q.0) (sym here) ∙ e) in
              let whole = here ∙ on in
              let in_round : k ≤ file_last - offset = ground arith in
              let rest =
                response_loop-response_bytes fuel (offset + length bs)
                  (log_call (append_response_body bs) s₁) (omega arith)
                  (ap (λ q. q.0) (sym whole) ∙ e) in
              ap (λ q. response_bytes q.1.trace) whole
              ∙ rest
              ∙ chunk-rest_of k offset (response_bytes s.trace) in_round inside
        ]
  ]

-- A file-backed buffer that is accepted, from a file that reads as `content`, went to the engine
-- byte for byte: exactly its range of the file, in order, with direct I/O on or off. A range whose
-- end lies before its start is refused.
pub append_response_body_file-response_bytes :
    (env : Env) (content : Bytes) (b : Buf) (s : State)
    → ReadsFile env b.fd content
    → (append_response_body_file env b s).0 ≡ ngx_ok
    → (response_bytes (append_response_body_file env b s).1.trace
        ≡ response_bytes s.trace ++ take (b.file_last - b.file_pos) (drop b.file_pos content))
      × (b.file_pos ≤ b.file_last)
unfolding append_response_body_file direct_loop
append_response_body_file-response_bytes env content b s file e =
    let s₁ = log_call alloc_chunk s in
    let run =
      response_loop-response_bytes env b.fd content file b.file_last (b.file_last - b.file_pos)
        b.file_pos in
    ground (
      arith,
      rest_of_stop env b.fd content file b.file_last b.file_pos (response_bytes s.trace),
      run s₁,
      run (log_call directio_off s₁),
    )
