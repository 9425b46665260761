-- ===== src/Fuzz/Examples.antt =====
-- Tests and witnesses of the fuzz targets.
use coraza_nginx.Common.{suc, ◌≡◌, ◌≢◌, refl, none, some, [], ◌∷◌, min, length, arith}
use coraza_nginx.Pack.{Bytes, packed_size, refused, write_headers, write_header}
use coraza_nginx.Fuzz.{
  Heap, malloc, free, empty_pool, max_pairs, shim_pnalloc, pool_reset, free_all, shim_pack_headers,
  shim_str_to_char, read_pairs, decode_pair, decode_pairs, check_packed, check_text,
  fuzz_pack_headers, fuzz_str_to_char,
}
use coraza_nginx.Fuzz.Passes.{Passes, fuzz_pack_headers-Passes, fuzz_str_to_char-Passes}
use coraza_nginx.Fuzz.Accepts.{read_pairs-accepted}

-- A `malloc` that always has room.
abbrev roomy : Heap
roomy t = suc (length t)

-- Two pairs, the second of which declares more bytes than are left.
abbrev seed : Bytes
seed = 2 ∷ 0 ∷ 1 ∷ 0 ∷ 2 ∷ 97 ∷ 120 ∷ 121 ∷ 0 ∷ 9 ∷ 0 ∷ 9 ∷ 98 ∷ 99 ∷ []

pack_seed :
    fuzz_pack_headers roomy seed ≡ some (record { allocs = []; calls = free 2 ∷ malloc 17 ∷ [] })
unfolding fuzz_pack_headers read_pairs shim_pack_headers packed_size refused write_headers
    write_header shim_pnalloc check_packed decode_pairs decode_pair pool_reset free_all
pack_seed = refl

text_empty :
    fuzz_str_to_char roomy [] ≡ some (record { allocs = []; calls = free 2 ∷ malloc 1 ∷ [] })
unfolding fuzz_str_to_char shim_str_to_char shim_pnalloc check_text pool_reset free_all
text_empty = refl

fuzz_pack_headers-Passes_example : Passes roomy (fuzz_pack_headers roomy seed)
fuzz_pack_headers-Passes_example = fuzz_pack_headers-Passes roomy seed

fuzz_str_to_char-Passes_example : Passes roomy (fuzz_str_to_char roomy seed)
fuzz_str_to_char-Passes_example = fuzz_str_to_char-Passes roomy seed

read_pairs-accepted_example :
    (shim_pack_headers roomy
      (read_pairs (min 2 max_pairs) (0 ∷ 1 ∷ 0 ∷ 1 ∷ 97 ∷ 98 ∷ [])).0
      empty_pool).0
    ≢ none
read_pairs-accepted_example =
    read_pairs-accepted roomy 2 (0 ∷ 1 ∷ 0 ∷ 1 ∷ 97 ∷ 98 ∷ []) (omega arith) (λ t e. omega arith)
