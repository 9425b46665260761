-- ===== src/Fuzz/Passes.antt =====
-- The assertions of fuzz/fuzz_pack_headers.c and fuzz/fuzz_str_to_char.c.
use coraza_nginx.Common.{
  ℕ, zero, suc, ◌+◌, ◌*◌, ◌≤◌, ◌≡◌, ◌≢◌, refl, true, false, inl, inr, Bool-cases, ◌==◌, min, Option,
  none, some, List, [], ◌∷◌, ◌++◌, length, drop, length-take, arith,
}
use coraza_nginx.Pack.{Bytes, Header, Packed, int_max, write_headers}
use coraza_nginx.Pack.Wire.{wire_size, NamesFit}
use coraza_nginx.Pack.RoundTrip.{packed_size-Sized}
use coraza_nginx.Fuzz.{
  Heap, ShimPool, empty_pool, shim_pnalloc, pool_reset, max_pairs, shim_pack_headers,
  shim_str_to_char, read_pairs, check_packed, check_text, fuzz_pack_headers, fuzz_str_to_char,
  conclude,
}
use coraza_nginx.Fuzz.Pool.{
  Balanced, Settled, empty_pool-Balanced, shim_pnalloc-Balanced, pool_reset-Settled,
}
use coraza_nginx.Fuzz.Decoded.{decode_pairs-written, assert_same-written, byte-written}

read_pairs-total :
    (want : ℕ) (input : Bytes) → (read_pairs want input).1 ≡ wire_size (read_pairs want input).0
unfolding read_pairs wire_size
read_pairs-total zero input = refl
read_pairs-total (suc want) (a ∷ (b ∷ (c ∷ (d ∷ input)))) =
    let nlen = min (a * 256 + b) (length input) in
    let behind = drop nlen input in
    let vlen = min (c * 256 + d) (length behind) in
    omega (
      arith,
      length-take nlen input,
      length-take vlen behind,
      read_pairs-total want (drop vlen behind),
    )
read_pairs-total (suc want) [] = refl
read_pairs-total (suc want) (a ∷ []) = refl
read_pairs-total (suc want) (a ∷ (b ∷ [])) = refl
read_pairs-total (suc want) (a ∷ (b ∷ (c ∷ []))) = refl

check_none :
    (pairs : List Header)
    → wire_size pairs ≡ 0
    → check_packed pairs 0 (0, record { out = []; out_len = 0 }) ≡ some tt
unfolding check_packed
check_none [] e = refl
check_none (h ∷ hs) e = refl

check_written :
    (pairs : List Header) (p : ℕ)
    → p ≢ 0
    → wire_size pairs ≢ 0
    → NamesFit pairs
    → wire_size pairs ≤ int_max
    → check_packed pairs
        (wire_size pairs)
        (p, record { out = write_headers pairs; out_len = wire_size pairs })
      ≡ some tt
unfolding check_packed wire_size
check_written [] p n w f s = absurd (w refl)
check_written (h ∷ hs) p n w f s =
    let total = wire_size (h ∷ hs) in
    let packed : Packed = record { out = write_headers (h ∷ hs); out_len = total } in
    let z : (total == 0) ≡ false = ground (arith, w) in
    let q : (p == 0) ≡ false = ground (arith, n) in
    let same : (total == total) ≡ true = ground arith in
    let decoded = decode_pairs-written packed (h ∷ hs) 0 refl (omega arith) s f in
    rw (z, q, same, decoded, same) refl

-- What the packing hands over passes the check.
shim_pack_headers-checked :
    (heap : Heap) (pairs : List Header) (pool : ShimPool) {packed : ℕ × Packed}
    → (shim_pack_headers heap pairs pool).0 ≡ some packed
    → check_packed pairs (wire_size pairs) packed ≡ some tt
unfolding shim_pack_headers check_packed
shim_pack_headers-checked heap pairs pool {packed} e =
    elim (packed_size-Sized 0 pairs (omega arith)) [
      | inr (refuses, f) ↦ absurd (ground (arith, refuses, e))
      | inl (sized, n, s) ↦ elim (Bool-cases (wire_size pairs == 0)) [
        | inl z ↦
            let none_there : packed ≡ (0, record { out = []; out_len = 0 }) =
              ground (arith, sized, z, e) in
            let w : wire_size pairs ≡ 0 = ground (arith, z) in
            rw (none_there, w) (check_none pairs w)
        | inr z ↦
            let p = (shim_pnalloc heap (0 + wire_size pairs) pool).0 in
            let there : packed
                ≡ (p, record { out = write_headers pairs; out_len = wire_size pairs }) =
              ground (arith, sized, z, e) in
            let q : p ≢ 0 = ground (arith, sized, z, e) in
            rw there (check_written pairs p q (ground (arith, z)) n (omega (arith, s)))
      ]
    ]

shim_pack_headers-Balanced :
    (heap : Heap) (pairs : List Header) (pool : ShimPool)
    → Balanced heap pool
    → Balanced heap (shim_pack_headers heap pairs pool).1
unfolding shim_pack_headers
shim_pack_headers-Balanced heap pairs pool b = elim (packed_size-Sized 0 pairs (omega arith)) [
  | inr (refuses, f) ↦ rw (refuses, shim_pack_headers) b
  | inl (sized, n, s) ↦
      rw (sized, shim_pack_headers)
        (elim (Bool-cases (0 + wire_size pairs == 0)) [
          | inl z ↦ rw z b
          | inr z ↦ elim (Bool-cases ((shim_pnalloc heap (0 + wire_size pairs) pool).0 == 0)) [
            | inl y ↦ rw (z, y) (shim_pnalloc-Balanced heap (0 + wire_size pairs) pool b)
            | inr y ↦ rw (z, y) (shim_pnalloc-Balanced heap (0 + wire_size pairs) pool b)
          ]
        ])
]

-- A run in which no assertion failed and no byte outside of a block was read, and which left no
-- block behind.
pub record Passes (heap : Heap) (run : Option ShimPool) : Type 0 where
  pub pool : ShimPool
  pub finished : run ≡ some pool
  pub settled : Settled heap pool

conclude-Passes :
    {A : Type 0} (heap : Heap) (check : A → Option (Unit {0})) (r : Option A × ShimPool)
    → Balanced heap r.1
    → ((a : A) → r.0 ≡ some a → check a ≡ some tt)
    → Passes heap (conclude check r)
conclude-Passes heap check (none, pool) b passes = record {
  pool = pool_reset pool;
  finished = refl;
  settled = pool_reset-Settled heap pool b;
}
conclude-Passes heap check (some a, pool) b passes = record {
  pool = pool_reset pool;
  finished = rw (passes a refl) refl;
  settled = pool_reset-Settled heap pool b;
}

-- Whatever the input and whatever `malloc` answers: the target for the packing meets no assertion
-- that fails (the length is the sum over the pairs, and decoding the buffer gives back each pair's
-- lengths and bytes and ends at its length) and reads no byte outside of the buffer. Each block
-- that it allocated was freed once.
pub fuzz_pack_headers-Passes :
    (heap : Heap) (input : Bytes) → Passes heap (fuzz_pack_headers heap input)
unfolding fuzz_pack_headers
fuzz_pack_headers-Passes heap [] = record {
  pool = empty_pool;
  finished = refl;
  settled = record { nothing = refl; once = λ p n. refl };
}
fuzz_pack_headers-Passes heap (w ∷ input) =
    let pairs = (read_pairs (min w max_pairs) input).0 in
    let total = read_pairs-total (min w max_pairs) input in
    rw total (
      conclude-Passes heap (check_packed pairs (wire_size pairs))
        (shim_pack_headers heap pairs empty_pool)
        (shim_pack_headers-Balanced heap pairs empty_pool (empty_pool-Balanced heap))
        (λ packed e. shim_pack_headers-checked heap pairs empty_pool e))

shim_str_to_char-checked :
    (heap : Heap) (input : Bytes) (pool : ShimPool) {text : ℕ × Bytes}
    → (shim_str_to_char heap input pool).0 ≡ some text
    → check_text input text ≡ some tt
unfolding shim_str_to_char check_text
shim_str_to_char-checked heap input pool {text} e =
    let p = (shim_pnalloc heap (length input + 1) pool).0 in
    let there : text ≡ (p, input ++ (0 ∷ [])) = ground (arith, e) in
    let q : (p == 0) ≡ false = ground (arith, e) in
    let same = assert_same-written input (0 ∷ []) in
    let end = byte-written input 0 [] in rw (there, q, same, end) refl

shim_str_to_char-Balanced :
    (heap : Heap) (input : Bytes) (pool : ShimPool)
    → Balanced heap pool
    → Balanced heap (shim_str_to_char heap input pool).1
unfolding shim_str_to_char
shim_str_to_char-Balanced heap input pool b =
    elim (Bool-cases ((shim_pnalloc heap (length input + 1) pool).0 == 0)) [
      | inl z ↦ rw z (shim_pnalloc-Balanced heap (length input + 1) pool b)
      | inr z ↦ rw z (shim_pnalloc-Balanced heap (length input + 1) pool b)
    ]

-- Whatever the input and whatever `malloc` answers: the target for the C strings meets no
-- assertion that fails, also on an empty input, whose string is not null. Each block that it
-- allocated was freed once.
pub fuzz_str_to_char-Passes :
    (heap : Heap) (input : Bytes) → Passes heap (fuzz_str_to_char heap input)
unfolding fuzz_str_to_char
fuzz_str_to_char-Passes heap input =
    conclude-Passes heap (check_text input) (shim_str_to_char heap input empty_pool)
      (shim_str_to_char-Balanced heap input empty_pool (empty_pool-Balanced heap))
      (λ text e. shim_str_to_char-checked heap input empty_pool e)
