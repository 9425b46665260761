-- ===== src/Pack.antt =====
-- src/ngx_http_coraza_utils.c: C strings, and the packed header format of the bulk entry points.
pub mod Wire
pub mod RoundTrip
mod Examples
use coraza_nginx.Common.{
  ℕ, ◌+◌, ◌-◌, ◌/◌, ◌%◌, Bool, ◌||◌, Option, none, some, List, [], ◌∷◌, ◌++◌, length, ltb, ◌==◌,
  if◌then◌else◌,
}

-- An `ngx_str_t` is the list of its bytes.
abbrev pub Bytes : Type 0
Bytes = List ℕ

pub record Header : Type 0 where
  pub name : Bytes
  pub value : Bytes

abbrev pub int_max : ℕ
int_max = 2147483647

-- `none` is NGX_ERROR; the argument is the answer of `ngx_pnalloc` for a size.
unfoldable pub str_to_char : (ℕ → Bool) → Bytes → Option Bytes
str_to_char pnalloc a = if pnalloc (length a + 1) then some (a ++ (0 ∷ [])) else none

-- The two guards of the first loop, at the total so far.
unfoldable pub refused : ℕ → Header → Bool
refused total h =
    let nlen = length h.name in
    let vlen = length h.value in
    (ltb 0xffff nlen || ltb int_max vlen)
    || (ltb (int_max - 6) total
        || (ltb (int_max - 6 - total) nlen || ltb (int_max - 6 - total - nlen) vlen))

-- The first loop: the length of the whole buffer, `none` where a guard fails.
unfoldable pub packed_size : ℕ → List Header → Option ℕ
packed_size total [] = some total
packed_size total (h ∷ hs) =
    let rest = packed_size (total + (6 + length h.name + length h.value)) hs in
    if refused total h then none else rest

-- The second loop: what it writes, header by header.
unfoldable pub write_header : Header → Bytes
write_header h =
    let nlen = length h.name in
    let vlen = length h.value in
    (nlen / 256) % 256
    ∷ nlen % 256
    ∷ (h.name
        ++ ((vlen / 16777216) % 256
            ∷ (vlen / 65536) % 256
            ∷ (vlen / 256) % 256
            ∷ vlen % 256
            ∷ h.value))

unfoldable pub write_headers : List Header → Bytes
write_headers [] = []
write_headers (h ∷ hs) = write_header h ++ write_headers hs

-- The buffer that is allocated and the bytes that are written into it from its start.
pub record Packed : Type 0 where
  pub out : Bytes
  pub out_len : ℕ

unfoldable pub pack_headers : (ℕ → Bool) → List Header → Option Packed
pack_headers pnalloc pairs = elim (packed_size 0 pairs) [
  | none ↦ none
  | some total ↦
      if total == 0
      then some (record { out = []; out_len = 0 })
      else if pnalloc total
      then some (record { out = write_headers pairs; out_len = total })
      else none
]
