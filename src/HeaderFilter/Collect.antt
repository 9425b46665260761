-- ===== src/HeaderFilter/Collect.antt =====
-- A header for the engine: collected for one call, or submitted by itself.
use coraza_nginx.Common.{
  ℤ, Bool, true, not, is_neg, eq_code, ngx_ok, ngx_error, ◌==◌, Option, none, some, List, [], ◌∷◌,
  ◌++◌, length,
}
use coraza_nginx.Pack.{Bytes, Header}
use coraza_nginx.Runtime.{
  Env, M, pure, branch, ◌>>=◌, ◌>>◌, get, ask, allocate, set_ctx, array_push, pnalloc,
}
use coraza_nginx.Headers.{response_header_call}

-- A copy in the request's pool; an empty string needs none.
unfoldable pub copy : Env → Bytes → M Bool
copy env bs = branch (length bs == 0) (pure true) (allocate env (pnalloc (length bs)))

-- Into the array; where a copy fails the filter returns, and the array is read no more.
unfoldable pub collect_header : Env → Header → List Header → M ℤ
unfolding copy
collect_header env h pairs = do
  pushed ← allocate env array_push
  branch (not pushed) (pure ngx_error) (do
    name_copied ← copy env h.name
    branch (not name_copied) (pure ngx_error) (do
      value_copied ← copy env h.value
      branch (not value_copied) (pure ngx_error) (do
        set_ctx (λ c. record c { resp_hdr_collect = some (pairs ++ (h ∷ [])) })
        pure ngx_ok)))

unfoldable pub submit_header : Env → Header → M ℤ
submit_header env h = do
  rc ← ask env (response_header_call h)
  branch (is_neg rc) (pure ngx_error) (pure ngx_ok)

unfoldable pub collect_or_submit : Env → Header → Option (List Header) → M ℤ
unfolding submit_header collect_header
collect_or_submit env h none = submit_header env h
collect_or_submit env h (some pairs) = collect_header env h pairs

unfoldable pub add_header : Env → Header → M ℤ
unfolding collect_or_submit
add_header env h = do s ← get; collect_or_submit env h s.ctx.resp_hdr_collect

-- `next` after a step that went well; its answer otherwise.
abbrev pub and_then : M ℤ → M ℤ → M ℤ
and_then m next = do rc ← m; branch (eq_code ngx_ok rc) next (pure rc)
