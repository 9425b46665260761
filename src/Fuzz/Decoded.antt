-- ===== src/Fuzz/Decoded.antt =====
-- The round trip of fuzz/fuzz_pack_headers.c on what `ngx_http_coraza_pack_headers` writes.
use coraza_nginx.Common.{
  ℕ, ◌+◌, ◌/◌, ◌%◌, ◌≤◌, ◌≡◌, refl, sym, ap, ◌∙◌, ◌==◌, leb, true, some, List, [], ◌∷◌, ◌++◌,
  append_assoc, length, drop, drop-drop, arith,
}
use coraza_nginx.Pack.{Bytes, Header, Packed, int_max, write_header, write_headers}
use coraza_nginx.Pack.Wire.{wire_size, NamesFit}
use coraza_nginx.Pack.RoundTrip.{be16, be32, length-write_header}
use coraza_nginx.Fuzz.{starts_with, byte, assert_same, decode_pair, decode_pairs}

drop-append : (xs ys : Bytes) → drop (length xs) (xs ++ ys) ≡ ys
drop-append [] ys = refl
drop-append (x ∷ xs) ys = drop-append xs ys

starts_with-append : (xs ys : Bytes) → starts_with xs (xs ++ ys) ≡ true
starts_with-append [] ys = refl
starts_with-append (x ∷ xs) ys = ground (arith, starts_with-append xs ys)

-- The bytes of the memory at a position.
record Stands (out : Bytes) (p : ℕ) (bytes : Bytes) : Type 0 where
  at : drop p out ≡ bytes

after :
    (out : Bytes) (p : ℕ) (xs ys : Bytes) → Stands out p (xs ++ ys) → Stands out (p + length xs) ys
after out p xs ys s = record {
  at = sym (drop-drop (length xs) p out) ∙ ap (drop (length xs)) s.at ∙ drop-append xs ys;
}

byte-Stands : (out : Bytes) (p b : ℕ) (bs : Bytes) → Stands out p (b ∷ bs) → byte out p ≡ some b
byte-Stands out p b bs s = rw s.at refl

assert_same-Stands :
    (out : Bytes) (p : ℕ) (xs ys : Bytes) → Stands out p (xs ++ ys) → assert_same out p xs ≡ some tt
assert_same-Stands out p xs ys s = rw s.at (ground (arith, starts_with-append xs ys))

leb-true : (a b : ℕ) → a ≤ b → leb a b ≡ true
leb-true a b l = ground arith

same_number : (n : ℕ) → (n == n) ≡ true
same_number n = ground arith

decode_pair-written :
    (packed : Packed) (h : Header) (p : ℕ) (rest : Bytes)
    → Stands packed.out p (write_header h ++ rest)
    → p + length (write_header h) ≤ packed.out_len
    → length h.name ≤ 65535
    → length h.value ≤ int_max
    → decode_pair packed h p ≡ some (p + length (write_header h))
unfolding decode_pair write_header
decode_pair-written packed h p rest s l n v =
    let nlen = length h.name in
    let vlen = length h.value in
    let hi = (nlen / 256) % 256 in
    let lo = nlen % 256 in
    let v₃ = (vlen / 16777216) % 256 in
    let v₂ = (vlen / 65536) % 256 in
    let v₁ = (vlen / 256) % 256 in
    let v₀ = vlen % 256 in
    let last = h.value ++ rest in
    let tail = v₃ ∷ (v₂ ∷ (v₁ ∷ (v₀ ∷ last))) in
    let s₀ : Stands packed.out p (hi ∷ (lo ∷ (h.name ++ tail))) = record {
      at =
          s.at
          ∙ ap (λ x. hi ∷ (lo ∷ x)) (append_assoc h.name (v₃ ∷ (v₂ ∷ (v₁ ∷ (v₀ ∷ h.value)))) rest);
    } in
    let s₁ = after packed.out p (hi ∷ []) (lo ∷ (h.name ++ tail)) s₀ in
    let s₂ = after packed.out p (hi ∷ (lo ∷ [])) (h.name ++ tail) s₀ in
    let s₃ = after packed.out (p + 2) h.name tail s₂ in
    let s₄ = after packed.out (p + 2 + nlen) (v₃ ∷ []) (v₂ ∷ (v₁ ∷ (v₀ ∷ last))) s₃ in
    let s₅ = after packed.out (p + 2 + nlen) (v₃ ∷ (v₂ ∷ [])) (v₁ ∷ (v₀ ∷ last)) s₃ in
    let s₆ = after packed.out (p + 2 + nlen) (v₃ ∷ (v₂ ∷ (v₁ ∷ []))) (v₀ ∷ last) s₃ in
    let s₇ = after packed.out (p + 2 + nlen) (v₃ ∷ (v₂ ∷ (v₁ ∷ (v₀ ∷ [])))) last s₃ in
    let o = packed.out in
    let b₀ = byte-Stands o p hi (lo ∷ (h.name ++ tail)) s₀ in
    let b₁ = byte-Stands o (p + 1) lo (h.name ++ tail) s₁ in
    let b₃ = byte-Stands o (p + 2 + nlen) v₃ (v₂ ∷ (v₁ ∷ (v₀ ∷ last))) s₃ in
    let b₄ = byte-Stands o (p + 2 + nlen + 1) v₂ (v₁ ∷ (v₀ ∷ last)) s₄ in
    let b₅ = byte-Stands o (p + 2 + nlen + 2) v₁ (v₀ ∷ last) s₅ in
    let b₆ = byte-Stands o (p + 2 + nlen + 3) v₀ last s₆ in
    let m₁ = assert_same-Stands o (p + 2) h.name tail s₂ in
    let m₂ = assert_same-Stands o (p + 2 + nlen + 4) h.value rest s₇ in
    let len : length (write_header h) ≡ 6 + nlen + vlen = length-write_header h in
    let r₁ = leb-true (p + 2) packed.out_len (omega (arith, l, len)) in
    let r₂ = leb-true (p + 2 + nlen) packed.out_len (omega (arith, l, len)) in
    let r₃ = leb-true (p + 2 + nlen + 4) packed.out_len (omega (arith, l, len)) in
    let r₄ = leb-true (p + 2 + nlen + 4 + vlen) packed.out_len (omega (arith, l, len)) in
    let q₁ = same_number nlen in
    let q₂ = same_number vlen in
    rw (r₁, b₀, b₁, be16 nlen n, q₁, r₂, m₁, r₃, b₃, b₄, b₅, b₆, be32 vlen v, q₂, r₄, m₂)
      (ap some (omega (arith, len)))

-- Where the buffer holds what the packing writes, from the position on and up to its length, the
-- round trip goes through to the end.
pub decode_pairs-written :
    (packed : Packed) (hs : List Header) (p : ℕ)
    → drop p packed.out ≡ write_headers hs
    → p + wire_size hs ≡ packed.out_len
    → packed.out_len ≤ int_max
    → NamesFit hs
    → decode_pairs packed hs p ≡ some packed.out_len
unfolding decode_pairs write_headers wire_size
decode_pairs-written packed [] p at len b n = ap some (omega (arith, len))
decode_pairs-written packed (h ∷ hs) p at len b n =
    let w = length-write_header h in
    let s : Stands packed.out p (write_header h ++ write_headers hs) = record { at = at } in
    let one =
      decode_pair-written packed h p (write_headers hs) s (omega (arith, w, len)) n.0
        (omega (arith, len)) in
    let rest = after packed.out p (write_header h) (write_headers hs) s in
    rw one (
      decode_pairs-written packed hs (p + length (write_header h)) rest.at (omega (arith, w, len)) b
        n.1)

-- A text is found before whatever stands behind it.
pub assert_same-written : (xs ys : Bytes) → assert_same (xs ++ ys) 0 xs ≡ some tt
assert_same-written xs ys = assert_same-Stands (xs ++ ys) 0 xs ys (record { at = refl })

pub byte-written : (xs : Bytes) (y : ℕ) (ys : Bytes) → byte (xs ++ (y ∷ ys)) (length xs) ≡ some y
byte-written xs y ys = rw (drop-append xs (y ∷ ys)) refl
