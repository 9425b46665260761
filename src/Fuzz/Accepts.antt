-- ===== src/Fuzz/Accepts.antt =====
-- Which header sets fuzz/fuzz_pack_headers.c can make.
use coraza_nginx.Common.{
  ℕ, zero, suc, ◌+◌, ◌*◌, ◌≤◌, ◌<◌, ◌≢◌, inl, inr, ◌==◌, min, none, if◌then◌else◌, List, [], ◌∷◌,
  length, drop, length-take, arith,
}
use coraza_nginx.Pack.{Bytes}
use coraza_nginx.Pack.Wire.{wire_size, NamesFit}
use coraza_nginx.Pack.RoundTrip.{packed_size-Sized}
use coraza_nginx.Fuzz.{
  Heap, ShimCall, malloc, empty_pool, max_pairs, shim_pnalloc, shim_pack_headers, read_pairs,
}

-- The values of a byte.
abbrev pub AllBytes : List ℕ → Type 0
AllBytes [] = Unit {0}
AllBytes (b ∷ bs) = (b < 256) × AllBytes bs

AllBytes-drop : (n : ℕ) (bs : List ℕ) → AllBytes bs → AllBytes (drop n bs)
AllBytes-drop zero bs a = a
AllBytes-drop (suc n) [] a = tt
AllBytes-drop (suc n) (b ∷ bs) a = AllBytes-drop n bs a.1

-- The most that a pair takes on the wire.
abbrev pair_max : ℕ
pair_max = 131076

read_pairs-fits :
    (want : ℕ) (input : Bytes)
    → AllBytes input
    → NamesFit (read_pairs want input).0 × (wire_size (read_pairs want input).0 ≤ want * pair_max)
unfolding read_pairs wire_size
read_pairs-fits zero input a = (tt, omega arith)
read_pairs-fits (suc want) (a ∷ (b ∷ (c ∷ (d ∷ input)))) v =
    let nlen = min (a * 256 + b) (length input) in
    let behind = drop nlen input in
    let vlen = min (c * 256 + d) (length behind) in
    let v' = v.1.1.1.1 in
    let rest =
      read_pairs-fits want (drop vlen behind)
        (AllBytes-drop vlen behind (AllBytes-drop nlen input v')) in
    let n = length-take nlen input in
    let m = length-take vlen behind in
    let v₀ = v.0 in
    let v₁ = v.1.0 in
    let v₂ = v.1.1.0 in
    let v₃ = v.1.1.1.0 in
    ((omega (arith, n, v₀, v₁), rest.0), omega (arith, n, m, v₀, v₁, v₂, v₃, rest.1))
read_pairs-fits (suc want) [] v = (tt, omega arith)
read_pairs-fits (suc want) (a ∷ []) v = (tt, omega arith)
read_pairs-fits (suc want) (a ∷ (b ∷ [])) v = (tt, omega arith)
read_pairs-fits (suc want) (a ∷ (b ∷ (c ∷ []))) v = (tt, omega arith)

-- Where `malloc` has room, the packing accepts every set that the target makes of an input of
-- bytes: each run goes on to the assertions, and none comes to a guard on the lengths.
pub read_pairs-accepted :
    (heap : Heap) (w : ℕ) (input : Bytes)
    → AllBytes input
    → ((t : List ShimCall) → heap t ≢ 0)
    → (shim_pack_headers heap (read_pairs (min w max_pairs) input).0 empty_pool).0 ≢ none
unfolding shim_pack_headers shim_pnalloc
read_pairs-accepted heap w input a room e =
    let pairs = (read_pairs (min w max_pairs) input).0 in
    let fits = read_pairs-fits (min w max_pairs) input a in
    elim (packed_size-Sized 0 pairs (omega arith)) [
      | inr (refuses, f) ↦ absurd (f fits.0 (omega (arith, fits.1)))
      | inl (sized, n, s) ↦
          let total = 0 + wire_size pairs in
          let size = if total == 0 then 1 else total in
          let p : heap (malloc size ∷ []) ≢ 0 = room (malloc size ∷ []) in
          ground (arith, sized, p, e)
    ]
