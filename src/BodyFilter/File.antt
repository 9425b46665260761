-- ===== src/BodyFilter/File.antt =====
-- Reading a buffer, and submitting a range of a file to the engine through a scratch buffer.
use coraza_nginx.Common.{
  ℕ, zero, suc, ◌+◌, ◌-◌, ◌%◌, ℤ, Bool, ◌&&◌, ltb, ◌==◌, eq_code, is_num, ngx_ok, ngx_error, Option,
  none, some, [], ◌∷◌, ◌++◌, length, if◌then◌else◌,
}
use coraza_nginx.Pack.{Bytes}
use coraza_nginx.Runtime.{
  Buf, Env, Read, failed, got, M, pure, branch, ◌>>=◌, ◌>>◌, call, ask, allocate, read_at, trigger,
  append_response_body, pnalloc, alloc_chunk, free_chunk, directio_off, directio_on,
}

-- `size_t` on a 64-bit platform.
abbrev pub size_mod : ℕ
size_mod = 18446744073709551616

abbrev pub response_chunk_size : ℕ
response_chunk_size = 65536

abbrev pub is_file_buf : Buf → Bool
is_file_buf b = b.in_file && b.has_file

-- `(size_t) (file_last - file_pos)`.
abbrev pub file_range : Buf → ℕ
file_range b = (b.file_last + size_mod - b.file_pos) % size_mod

unfoldable pub body_chunk_len : Buf → ℕ
body_chunk_len b = if b.in_memory then length b.bytes else if is_file_buf b then file_range b else 0

-- `ngx_http_coraza_body_filter_consume`, on one buffer of the chain.
unfoldable pub consume_buf : Buf → Buf
consume_buf b = record b { bytes = []; file_pos = b.file_last }

-- The loop that reads a whole range. Each round reads a byte at least, so fuel of `remaining` is
-- enough; `none` is NGX_ERROR.
unfoldable pub read_chunk :
    ℕ → ℕ → Bytes → (ℕ → ℕ → Bytes → M (Option Bytes)) → Read → M (Option Bytes)
read_chunk remaining offset acc next failed = pure none
read_chunk remaining offset acc next (got []) = pure none
read_chunk remaining offset acc next (got (b ∷ bs)) =
    next (remaining - length (b ∷ bs)) (offset + length (b ∷ bs)) (acc ++ (b ∷ bs))

unfoldable pub read_range : Env → ℕ → ℕ → ℕ → ℕ → Bytes → M (Option Bytes)
unfolding read_chunk
read_range env fd zero remaining offset acc = pure (some acc)
read_range env fd (suc fuel) remaining offset acc =
    branch (ltb 0 remaining)
      (do
        r ← read_at env fd remaining offset
        read_chunk remaining offset acc (read_range env fd fuel) r)
      (pure (some acc))

unfoldable pub read_body_data : Env → Buf → M (Option Bytes)
unfolding body_chunk_len
read_body_data env b = branch b.in_memory (pure (some b.bytes)) (
    branch (is_file_buf b)
      (branch (body_chunk_len b == 0) (pure (some [])) (do
        room ← allocate env (pnalloc (body_chunk_len b))
        branch room (read_range env b.fd (body_chunk_len b) (body_chunk_len b) b.file_pos [])
            (pure none)))
      (pure (some [])))

-- One round of the submission of a file range.
unfoldable pub response_chunk : Env → ℕ → (ℕ → M ℤ) → Read → M ℤ
response_chunk env offset next failed = pure ngx_error
response_chunk env offset next (got []) = pure ngx_error
response_chunk env offset next (got (b ∷ bs)) = do
  rc ← ask env (append_response_body (b ∷ bs))
  branch (is_num 0 rc) (next (offset + length (b ∷ bs))) (pure ngx_error)

abbrev pub response_round : ℕ → ℕ → ℕ
response_round file_last offset =
    if ltb response_chunk_size (file_last - offset) then response_chunk_size else file_last - offset

unfoldable pub response_loop : Env → ℕ → ℕ → ℕ → ℕ → M ℤ
unfolding response_chunk
response_loop env fd file_last zero offset = pure ngx_ok
response_loop env fd file_last (suc fuel) offset =
    branch (ltb offset file_last)
      (do
        r ← read_at env fd (response_round file_last offset) offset
        response_chunk env offset (response_loop env fd file_last fuel) r)
      (pure ngx_ok)

-- The loop between switching direct I/O off and on again.
unfoldable pub direct_loop : Env → Buf → M ℤ
unfolding response_loop
direct_loop env b =
    branch b.directio
      (do
        off ← ask env directio_off
        branch (eq_code ngx_error off) (pure ngx_error) (do
          rc ← response_loop env b.fd b.file_last (b.file_last - b.file_pos) b.file_pos
          call directio_on
          pure rc))
      (response_loop env b.fd b.file_last (b.file_last - b.file_pos) b.file_pos)

unfoldable pub append_response_body_file : Env → Buf → M ℤ
unfolding direct_loop
append_response_body_file env b =
    branch (ltb b.file_last b.file_pos) (do trigger; pure ngx_error)
      (branch (b.file_last == b.file_pos) (pure ngx_ok) (do
        room ← allocate env alloc_chunk
        branch room
            (do
              rc ← direct_loop env b
              call free_chunk
              branch (eq_code ngx_ok rc) (pure rc) (do trigger; pure rc))
            (do trigger; pure ngx_error)))
