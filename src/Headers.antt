-- ===== src/Headers.antt =====
-- Headers on their way to the engine: the narrowing of their lengths, and the packing of a whole
-- set (src/ngx_http_coraza_rewrite.c and src/ngx_http_coraza_header_filter.c).
pub mod Seen
pub mod Whole
use coraza_nginx.Common.{
  ℕ, ◌-◌, ◌%◌, ◌==◌, ltb, ℤ, pos, negsuc, Option, none, some, List, ◌∷◌, length, if◌then◌else◌,
}
use coraza_nginx.Pack.{Bytes, Header, Packed, packed_size, pack_headers}
use coraza_nginx.Runtime.{
  Call, Elt, Env, State, M, log_call, pnalloc, add_request_header, add_response_header,
}

-- `size_t` to `int`.
abbrev pub to_int : ℕ → ℤ
to_int n =
    if ltb (n % 4294967296) 2147483648
    then pos (n % 4294967296)
    else negsuc (4294967295 - n % 4294967296)

abbrev pub header_of : Elt → Header
header_of e = record { name = e.key; value = e.value }

abbrev pub request_header_call : Header → Call
request_header_call h =
    add_request_header h.name (to_int (length h.name)) h.value (to_int (length h.value))

abbrev pub response_header_call : Header → Call
response_header_call h =
    add_response_header h.name (to_int (length h.name)) h.value (to_int (length h.value))

-- The allocation that `ngx_http_coraza_pack_headers` makes for a buffer of this size, if any.
abbrev pub log_pack : Option ℕ → State → State
log_pack none s = s
log_pack (some total) s = if total == 0 then s else log_call (pnalloc total) s

unfoldable pub pack : Env → List Header → M (Option Packed)
pack env pairs s = (
  pack_headers (λ n. env.allocates (pnalloc n ∷ s.trace)) pairs,
  log_pack (packed_size 0 pairs) s,
)
