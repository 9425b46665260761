-- ===== src/Pack/Wire.antt =====
-- An independent reading of the packed format that the comment above
-- `ngx_http_coraza_pack_headers` gives: [u16 BE][name][u32 BE][value], count times.
use coraza_nginx.Common.{
  ℕ, zero, suc, ◌+◌, ◌*◌, ◌≤◌, ◌≡◌, refl, Option, none, some, List, [], ◌∷◌, ◌++◌, length, arith,
}
use coraza_nginx.Pack.{Bytes, Header, int_max}

-- The first n bytes and the rest; `none` if there are fewer.
unfoldable pub split_exact : ℕ → Bytes → Option (Bytes × Bytes)
split_exact zero bs = some ([], bs)
split_exact (suc n) [] = none
split_exact (suc n) (b ∷ bs) = elim (split_exact n bs) [
  | none ↦ none
  | some (front, rest) ↦ some (b ∷ front, rest)
]

unfoldable pub read_value : Bytes → Bytes → Option (Header × Bytes)
read_value name (a ∷ b ∷ c ∷ d ∷ bs) = elim (split_exact (((a * 256 + b) * 256 + c) * 256 + d) bs) [
  | none ↦ none
  | some (value, rest) ↦ some (record { name = name; value = value }, rest)
]
read_value name _ = none

unfoldable pub read_header : Bytes → Option (Header × Bytes)
read_header (a ∷ b ∷ bs) = elim (split_exact (a * 256 + b) bs) [
  | none ↦ none
  | some (name, rest) ↦ read_value name rest
]
read_header _ = none

unfoldable pub read_headers : ℕ → Bytes → Option (List Header × Bytes)
read_headers zero bs = some ([], bs)
read_headers (suc n) bs = elim (read_header bs) [
  | none ↦ none
  | some (h, rest) ↦ elim (read_headers n rest) [
    | none ↦ none
    | some (hs, end) ↦ some (h ∷ hs, end)
  ]
]

-- The number of bytes that the format takes.
unfoldable pub wire_size : List Header → ℕ
wire_size [] = 0
wire_size (h ∷ hs) = 6 + length h.name + length h.value + wire_size hs

-- A set of headers that the format and the `int` of the cgo boundary can carry.
abbrev pub NamesFit : List Header → Type 0
NamesFit [] = Unit {0}
NamesFit (h ∷ hs) = (length h.name ≤ 65535) × NamesFit hs

pub record Fits (hs : List Header) : Type 0 where
  pub names : NamesFit hs
  pub size : wire_size hs ≤ int_max

pub split_exact-append : (xs ys : Bytes) → split_exact (length xs) (xs ++ ys) ≡ some (xs, ys)
unfolding split_exact
split_exact-append [] ys = refl
split_exact-append (x ∷ xs) ys = ground (arith, split_exact-append xs ys)
