-- ===== src/Headers/Whole.antt =====
-- Lengths that an `int` holds reach the engine as they are.
use coraza_nginx.Common.{
  ℕ, ◌≤◌, ◌≡◌, refl, sym, ap, ◌∙◌, pos, Bool, some, List, [], ◌∷◌, take, length, arith,
}
use coraza_nginx.Pack.{Bytes, Header, Packed, int_max, pack_headers}
use coraza_nginx.Pack.RoundTrip.{pack_headers-read_headers, pack_headers-length}
use coraza_nginx.Headers.{to_int}
use coraza_nginx.Headers.Seen.{span, whole, unpack}

take-length {ℓ} : {A : Type ℓ} (xs : List A) → take (length xs) xs ≡ xs
take-length [] = refl
take-length (x ∷ xs) = ap (◌∷◌ x) (take-length xs)

to_int_small : (n : ℕ) → n ≤ int_max → to_int n ≡ pos n
to_int_small n b = ground arith

pub span-length : (bs : Bytes) → length bs ≤ int_max → span bs (to_int (length bs)) ≡ bs
span-length bs b = ap (span bs) (to_int_small (length bs) b) ∙ take-length bs

-- A packed buffer, read by the length and the count that go with it.
pub unpack-pack_headers :
    (pnalloc : ℕ → Bool) (hs : List Header) (p : Packed)
    → pack_headers pnalloc hs ≡ some p
    → unpack p.out (to_int p.out_len) (to_int (length hs)) ≡ hs
unpack-pack_headers pnalloc hs p e =
    let (reads, fills, fits) = pack_headers-read_headers pnalloc hs e in
    let len : to_int p.out_len ≡ pos (length p.out) =
      to_int_small p.out_len fits ∙ ap pos (sym fills) in
    let count : to_int (length hs) ≡ pos (length hs) =
      to_int_small (length hs) (pack_headers-length pnalloc hs e) in
    rw (len, count) (rw (take-length p.out) (ap whole reads))
