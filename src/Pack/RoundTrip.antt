-- ===== src/Pack/RoundTrip.antt =====
-- The packed buffer (src/ngx_http_coraza_utils.c) against the wire format.
use coraza_nginx.Common.{
  ℕ, ◌+◌, ◌*◌, ◌/◌, ◌%◌, ◌≤◌, ◌≡◌, refl, sym, ap, ◌∙◌, Bool, true, Option, none, some, List, [],
  ◌∷◌, ◌++◌, append-nil, append_assoc, length, length-append, ◌↔◌, ◌⊎◌, inl, inr, Bool-cases, false,
  arith,
}
use coraza_nginx.Pack.{
  Bytes, Header, Packed, int_max, refused, packed_size, write_header, write_headers, pack_headers,
}
use coraza_nginx.Pack.Wire.{
  read_value, read_header, read_headers, wire_size, NamesFit, Fits, split_exact-append,
}

pub length-write_header :
    (h : Header) → length (write_header h) ≡ 6 + length h.name + length h.value
unfolding write_header
length-write_header h = omega (arith, length-append h.name)

pub length-write_headers : (hs : List Header) → length (write_headers hs) ≡ wire_size hs
unfolding write_headers wire_size
length-write_headers [] = refl
length-write_headers (h ∷ hs) = omega (
  arith,
  length-append (write_header h) (write_headers hs),
  length-write_header h,
  length-write_headers hs,
)

pub be16 : (n : ℕ) → n ≤ 65535 → ((n / 256) % 256) * 256 + n % 256 ≡ n
be16 n h = omega arith

pub be32 :
    (n : ℕ)
    → n ≤ 2147483647
    → (((n / 16777216) % 256 * 256 + (n / 65536) % 256) * 256 + (n / 256) % 256) * 256 + n % 256 ≡ n
be32 n h = omega arith

read_value-write :
    (name value rest : Bytes)
    → length value ≤ int_max
    → read_value name (
        (length value / 16777216) % 256
        ∷ (length value / 65536) % 256
        ∷ (length value / 256) % 256
        ∷ length value % 256
        ∷ (value ++ rest))
      ≡ some (record { name = name; value = value }, rest)
unfolding read_value
read_value-write name value rest h =
    ground (arith, be32 (length value) h, split_exact-append value rest)

abbrev value_part : Header → Bytes
value_part h =
    (length h.value / 16777216) % 256
    ∷ (length h.value / 65536) % 256
    ∷ (length h.value / 256) % 256
    ∷ length h.value % 256
    ∷ h.value

read_header-write :
    (h : Header) (rest : Bytes)
    → length h.name ≤ 65535
    → length h.value ≤ int_max
    → read_header (write_header h ++ rest) ≡ some (h, rest)
unfolding read_header write_header
read_header-write h rest p q = ground (
  arith,
  be16 (length h.name) p,
  append_assoc h.name (value_part h) rest,
  split_exact-append h.name (value_part h ++ rest),
  read_value-write h.name h.value rest q,
)

pub read_headers-write :
    (hs : List Header) (rest : Bytes)
    → Fits hs
    → read_headers (length hs) (write_headers hs ++ rest) ≡ some (hs, rest)
unfolding read_headers write_headers wire_size
read_headers-write [] rest f = refl
read_headers-write (h ∷ hs) rest f = ground (
  arith,
  append_assoc (write_header h) (write_headers hs) rest,
  read_header-write h (write_headers hs ++ rest) f.names.0 (ground (arith, f.size)),
  read_headers-write hs rest (record { names = f.names.1; size = ground (arith, f.size) }),
)

refused_iff :
    (total : ℕ) (h : Header)
    → total ≤ int_max
    → (refused total h ≡ false)
      ↔ ((length h.name ≤ 65535) × (total + (6 + length h.name + length h.value) ≤ int_max))
unfolding refused
refused_iff total h b = ground arith

-- The guards of the first loop, one by one, are exactly the two bounds of `Fits`.
abbrev pub Sized : ℕ → List Header → Option ℕ → Type 0
Sized total hs r =
    ((r ≡ some (total + wire_size hs)) × NamesFit hs × (total + wire_size hs ≤ int_max))
    ⊎ ((r ≡ none) × (NamesFit hs → total + wire_size hs ≤ int_max → ⊥))

pub packed_size-Sized :
    (total : ℕ) (hs : List Header) → total ≤ int_max → Sized total hs (packed_size total hs)
unfolding packed_size wire_size
packed_size-Sized total [] b = inl (ground arith, tt, omega arith)
packed_size-Sized total (h ∷ hs) b = elim (Bool-cases (refused total h)) [
  | inl bad ↦ rw bad (inr (refl, λ n s. cc ((refused_iff total h b).1 (n.0, omega arith))))
  | inr good ↦
      let (p, q) = (refused_iff total h b).0 good in
      rw good (elim (packed_size-Sized (total + (6 + length h.name + length h.value)) hs q) [
        | inl (e, n, s) ↦ inl (ground arith, (p, n), omega arith)
        | inr (e, f) ↦ inr (e, λ n s. f n.1 (omega arith))
      ])
]

write_headers_zero : (hs : List Header) → wire_size hs ≡ 0 → write_headers hs ≡ []
unfolding wire_size write_headers
write_headers_zero [] e = refl
write_headers_zero (h ∷ hs) e = absurd (omega arith)

-- Packing succeeds exactly on the headers that fit, where the pool can allocate the buffer. The
-- length given to the engine is the wire size, and it fits an `int`.
pub pack_headers_iff :
    (pnalloc : ℕ → Bool) (hs : List Header)
    → ((n : ℕ) → pnalloc n ≡ true)
    → (Fits hs
        × (pack_headers pnalloc hs
            ≡ some (record { out = write_headers hs; out_len = wire_size hs })))
      ⊎ ((Fits hs → ⊥) × (pack_headers pnalloc hs ≡ none))
unfolding pack_headers
pack_headers_iff pnalloc hs room = elim (packed_size-Sized 0 hs (omega arith)) [
  | inl (e, n, s) ↦ inl (
    record { names = n; size = omega arith },
    ground (arith, room (0 + wire_size hs), write_headers_zero hs),
  )
  | inr (e, f) ↦ inr (λ g. absurd (f g.names (ground (arith, g.size))), ground arith)
]

-- Whatever the allocator answers, a buffer that is handed over reads back as the very headers that
-- went in, exactly fills its length (so the second loop writes no byte past the allocation), and
-- its length fits an `int`.
pub pack_headers-read_headers :
    (pnalloc : ℕ → Bool) (hs : List Header) {p : Packed}
    → pack_headers pnalloc hs ≡ some p
    → (read_headers (length hs) p.out ≡ some (hs, []))
      × (length p.out ≡ p.out_len)
      × (p.out_len ≤ int_max)
unfolding pack_headers
pack_headers-read_headers pnalloc hs {p} e = elim (packed_size-Sized 0 hs (omega arith)) [
  | inl (sized, n, s) ↦
      let out_eq : p.out ≡ write_headers hs = ground (arith, write_headers_zero hs) in
      let len_eq : p.out_len ≡ wire_size hs = ground arith in
      rw (out_eq, len_eq)
        (
          ap (read_headers (length hs)) (sym (append-nil (write_headers hs)))
              ∙ read_headers-write hs [] (record { names = n; size = omega arith }),
          length-write_headers hs,
          omega arith,
        )
  | inr (failed, f) ↦ absurd (ground arith)
]

length-wire_size : (hs : List Header) → length hs ≤ wire_size hs
unfolding wire_size
length-wire_size [] = omega arith
length-wire_size (h ∷ hs) = omega (arith, length-wire_size hs)

pub pack_headers-length :
    (pnalloc : ℕ → Bool) (hs : List Header) {p : Packed}
    → pack_headers pnalloc hs ≡ some p
    → length hs ≤ int_max
unfolding pack_headers
pack_headers-length pnalloc hs e = elim (packed_size-Sized 0 hs (omega arith)) [
  | inl (sized, n, s) ↦ omega (arith, length-wire_size hs)
  | inr (failed, f) ↦ absurd (ground arith)
]
