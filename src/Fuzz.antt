-- ===== src/Fuzz.antt =====
-- The fuzz targets (fuzz/fuzz_pack_headers.c, fuzz/fuzz_str_to_char.c) and the part of nginx that
-- fuzz/ngx_shim.h stands in for.
pub mod Pool
pub mod Decoded
pub mod Passes
pub mod Accepts
mod Examples
use coraza_nginx.Common.{
  ℕ, zero, suc, ◌+◌, ◌*◌, min, Bool, true, false, not, ◌&&◌, ◌||◌, ◌==◌, leb, Option, none, some,
  List, [], ◌∷◌, ◌++◌, length, take, drop, if◌then◌else◌,
}
use coraza_nginx.Pack.{Bytes, Header, Packed, packed_size, write_headers}

-- The calls of the C library.
pub data ShimCall : Type 0 where
  malloc free : ℕ → ShimCall

-- The live blocks of the pool, `n` of them in the array, and the calls so far.
pub record ShimPool : Type 0 where
  pub allocs : List ℕ
  pub calls : List ShimCall

abbrev pub pool_max : ℕ
pool_max = 8

abbrev pub empty_pool : ShimPool
empty_pool = record { allocs = []; calls = [] }

-- `malloc` answers by the calls up to it; 0 is NULL.
abbrev pub Heap : Type 0
Heap = List ShimCall → ℕ

unfoldable pub shim_pnalloc : Heap → ℕ → ShimPool → ℕ × ShimPool
shim_pnalloc heap size pool =
    let t = malloc (if size == 0 then 1 else size) ∷ pool.calls in
    if leb pool_max (length pool.allocs)
    then (0, pool)
    else if heap t == 0
    then (0, record pool { calls = t })
    else (heap t, record { allocs = pool.allocs ++ (heap t ∷ []); calls = t })

unfoldable pub free_all : List ℕ → List ShimCall → List ShimCall
free_all [] t = t
free_all (p ∷ ps) t = free_all ps (free p ∷ t)

unfoldable pub pool_reset : ShimPool → ShimPool
unfolding free_all
pool_reset pool = record { allocs = []; calls = free_all pool.allocs pool.calls }

-- `ngx_str_to_char` on the shim's pool: the pointer and the bytes behind it, `none` for NGX_ERROR.
unfoldable pub shim_str_to_char : Heap → Bytes → ShimPool → Option (ℕ × Bytes) × ShimPool
shim_str_to_char heap a pool =
    let (p, pool') = shim_pnalloc heap (length a + 1) pool in
    if p == 0 then (none, pool') else (some (p, a ++ (0 ∷ [])), pool')

-- `ngx_http_coraza_pack_headers` on it; the pointer is 0 where there is nothing to pack.
unfoldable pub shim_pack_headers : Heap → List Header → ShimPool → Option (ℕ × Packed) × ShimPool
shim_pack_headers heap pairs pool = elim (packed_size 0 pairs) [
  | none ↦ (none, pool)
  | some total ↦
      let (p, pool') = shim_pnalloc heap total pool in
      if total == 0
      then (some (0, record { out = []; out_len = 0 }), pool)
      else if p == 0
      then (none, pool')
      else (some (p, record { out = write_headers pairs; out_len = total }), pool')
]

-- A run: `none` if an assertion fails or a byte outside of a block is read.
infixl 5 ◌>>=◌ ◌>>◌
abbrev pub ◌>>=◌ : {A B : Type 0} → Option A → (A → Option B) → Option B
none >>= f = none
some a >>= f = f a

abbrev pub ◌>>◌ : {B : Type 0} → Option (Unit {0}) → Option B → Option B
m >> k = m >>= λ _. k

abbrev pub assert : Bool → Option (Unit {0})
assert true = some tt
assert false = none

-- The byte at a position.
abbrev first : Bytes → Option ℕ
first [] = none
first (b ∷ bs) = some b

abbrev pub byte : Bytes → ℕ → Option ℕ
byte out p = first (drop p out)

-- Whether the memory begins with these bytes.
abbrev pub starts_with : Bytes → Bytes → Bool
starts_with [] ys = true
starts_with (x ∷ xs) [] = false
starts_with (x ∷ xs) (y ∷ ys) = x == y && starts_with xs ys

-- `assert(memcmp(out + p, bytes, len) == 0)`, which is left out for no bytes.
abbrev pub assert_same : Bytes → ℕ → Bytes → Option (Unit {0})
assert_same out p bytes =
    if length bytes == 0 then some tt else assert (starts_with bytes (drop p out))

abbrev pub max_pairs : ℕ
max_pairs = 32

-- The loop that reads the pairs off the rest of the input, at most `want` of them, with each length
-- clamped to what remains; and the sum of the lengths.
unfoldable pub read_pairs : ℕ → Bytes → List Header × ℕ
read_pairs zero input = ([], 0)
read_pairs (suc want) (a ∷ b ∷ c ∷ d ∷ input) =
    let nlen = min (a * 256 + b) (length input) in
    let behind = drop nlen input in
    let vlen = min (c * 256 + d) (length behind) in
    let (pairs, total) = read_pairs want (drop vlen behind) in
    (record { name = take nlen input; value = take vlen behind } ∷ pairs, 6 + nlen + vlen + total)
read_pairs (suc want) _ = ([], 0)

-- One pair of the round trip, from the position `p`: the position behind it.
unfoldable pub decode_pair : Packed → Header → ℕ → Option ℕ
decode_pair packed h p = do
  assert (leb (p + 2) packed.out_len)
  a ← byte packed.out p
  b ← byte packed.out (p + 1)
  let nlen = a * 256 + b
  assert (nlen == length h.name)
  assert (leb (p + 2 + nlen) packed.out_len)
  assert_same packed.out (p + 2) h.name
  assert (leb (p + 2 + nlen + 4) packed.out_len)
  c ← byte packed.out (p + 2 + nlen)
  d ← byte packed.out (p + 2 + nlen + 1)
  e ← byte packed.out (p + 2 + nlen + 2)
  f ← byte packed.out (p + 2 + nlen + 3)
  let vlen = ((c * 256 + d) * 256 + e) * 256 + f
  assert (vlen == length h.value)
  assert (leb (p + 2 + nlen + 4 + vlen) packed.out_len)
  assert_same packed.out (p + 2 + nlen + 4) h.value
  some (p + 2 + nlen + 4 + vlen)

unfoldable pub decode_pairs : Packed → List Header → ℕ → Option ℕ
decode_pairs packed [] p = some p
decode_pairs packed (h ∷ hs) p = do q ← decode_pair packed h p; decode_pairs packed hs q

-- What the target asserts of a packed set.
unfoldable pub check_packed : List Header → ℕ → ℕ × Packed → Option (Unit {0})
check_packed [] total (out, packed) = do assert (out == 0); assert (packed.out_len == 0)
check_packed (h ∷ hs) total (out, packed) =
    if total == 0 then (do assert (out == 0); assert (packed.out_len == 0)) else (do
      assert (not (out == 0))
      assert (packed.out_len == total)
      p ← decode_pairs packed (h ∷ hs) 0
      assert (p == packed.out_len))

-- The end of a run: what a call gave is checked, unless it gave NGX_ERROR, and the pool is emptied.
abbrev pub conclude : {A : Type 0} → (A → Option (Unit {0})) → Option A × ShimPool → Option ShimPool
conclude check (none, pool) = some (pool_reset pool)
conclude check (some a, pool) = check a >> some (pool_reset pool)

-- `LLVMFuzzerTestOneInput` of fuzz_pack_headers.c, from an empty pool: the pool behind it.
unfoldable pub fuzz_pack_headers : Heap → Bytes → Option ShimPool
fuzz_pack_headers heap [] = some empty_pool
fuzz_pack_headers heap (w ∷ input) =
    let (pairs, total) = read_pairs (min w max_pairs) input in
    conclude (check_packed pairs total) (shim_pack_headers heap pairs empty_pool)

-- What the other target asserts of a C string.
unfoldable pub check_text : Bytes → ℕ × Bytes → Option (Unit {0})
check_text input (out, text) = do
  assert (not (out == 0))
  assert_same text 0 input
  end ← byte text (length input)
  assert (end == 0)

-- `LLVMFuzzerTestOneInput` of fuzz_str_to_char.c.
unfoldable pub fuzz_str_to_char : Heap → Bytes → Option ShimPool
fuzz_str_to_char heap input = conclude (check_text input) (shim_str_to_char heap input empty_pool)
