-- ===== src/Pack/Examples.antt =====
-- Tests and witnesses of the packed format.
use coraza_nginx.Common.{ℕ, ◌≤◌, ◌≡◌, ◌⊎◌, refl, Bool, true, some, none, List, [], ◌∷◌, length}
use coraza_nginx.Pack.{
  Header, Packed, int_max, packed_size, refused, pack_headers, write_headers, write_header,
}
use coraza_nginx.Pack.Wire.{read_headers, wire_size, Fits}
use coraza_nginx.Pack.RoundTrip.{pack_headers_iff, pack_headers-read_headers}

-- "a: xy" and a header with an empty value.
abbrev two_headers : List Header
two_headers =
    record { name = 97 ∷ []; value = 120 ∷ 121 ∷ [] }
    ∷ record { name = 98 ∷ 99 ∷ []; value = [] }
    ∷ []

abbrev packed_two : Packed
packed_two = record {
  out = 0 ∷ 1 ∷ 97 ∷ 0 ∷ 0 ∷ 0 ∷ 2 ∷ 120 ∷ 121 ∷ 0 ∷ 2 ∷ 98 ∷ 99 ∷ 0 ∷ 0 ∷ 0 ∷ 0 ∷ [];
  out_len = 17;
}

abbrev always : ℕ → Bool
always n = true

pack_two : pack_headers always two_headers ≡ some packed_two
unfolding pack_headers packed_size refused write_headers write_header
pack_two = refl

pack_headers-read_headers_example :
    (read_headers (length two_headers) packed_two.out ≡ some (two_headers, []))
    × (length packed_two.out ≡ packed_two.out_len)
    × (packed_two.out_len ≤ int_max)
pack_headers-read_headers_example = pack_headers-read_headers always two_headers pack_two

pack_headers_iff_example :
    (Fits two_headers
      × (pack_headers always two_headers
          ≡ some (record { out = write_headers two_headers; out_len = wire_size two_headers })))
    ⊎ ((Fits two_headers → ⊥) × (pack_headers always two_headers ≡ none))
pack_headers_iff_example = pack_headers_iff always two_headers (λ n. refl)
