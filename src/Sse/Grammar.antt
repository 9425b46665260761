-- ===== src/Sse/Grammar.antt =====
-- Which values of Content-Type are a stream of events.
use coraza_nginx.Common.{
  ◌≤◌, ◌≡◌, refl, sym, ap, ◌∙◌, ◌⊎◌, inl, inr, ◌↔◌, true, Bool-cases, Option-cases, ◌==◌, ◌||◌,
  some, [], ◌∷◌, ◌++◌, map, length, length-append, arith,
}
use coraza_nginx.Pack.{Bytes}
use coraza_nginx.Scan.{lower}
use coraza_nginx.Sse.{sse, after_type, ends_type, is_sse_response}

abbrev pub AllSpace : Bytes → Type 0
AllSpace [] = Unit {0}
AllSpace (c ∷ cs) = ((c ≡ 32) ⊎ (c ≡ 9)) × AllSpace cs

-- The end of the value, or a semicolon and anything.
abbrev pub Parameters : Bytes → Type 0
Parameters [] = Unit {0}
Parameters (c ∷ cs) = c ≡ 59

-- The media type in letters of either size, optional white space, and the parameters.
abbrev pub EventStream : Bytes → Type 0
EventStream ct =
    (name space parameters : Bytes) × (ct ≡ name ++ (space ++ parameters))
    × (map lower name ≡ sse)
    × AllSpace space
    × Parameters parameters

abbrev Ends : Bytes → Type 0
Ends cs =
    (space parameters : Bytes) × (cs ≡ space ++ parameters) × AllSpace space × Parameters parameters

ends_type-Ends : (cs : Bytes) → ends_type cs ≡ true → Ends cs
unfolding ends_type
ends_type-Ends [] e = ([], [], refl, tt, tt)
ends_type-Ends (c ∷ cs) e = elim (Bool-cases (c == 32 || c == 9)) [
  | inl blank ↦
      let (space, parameters, q, a, p) = ends_type-Ends cs (ground arith) in
      (c ∷ space, parameters, ap (◌∷◌ c) q, (ground arith, a), p)
  | inr other ↦ ([], c ∷ cs, refl, tt, ground arith)
]

ends_type-append :
    (space parameters : Bytes)
    → AllSpace space
    → Parameters parameters
    → ends_type (space ++ parameters) ≡ true
unfolding ends_type
ends_type-append [] [] a p = refl
ends_type-append [] (c ∷ cs) a p = ground (arith, p)
ends_type-append (s ∷ ss) parameters a p = ground (arith, ends_type-append ss parameters a.1 p)

after_type-split :
    (ts cs r : Bytes)
    → after_type ts cs ≡ some r
    → (name : Bytes) × (cs ≡ name ++ r) × (map lower name ≡ ts)
unfolding after_type
after_type-split [] cs r e = ([], ground arith, refl)
after_type-split (t ∷ ts) [] r e = absurd (ground arith)
after_type-split (t ∷ ts) (c ∷ cs) r e =
    let (name, q, l) = after_type-split ts cs r (ground arith) in
    (c ∷ name, ap (◌∷◌ c) q, ground (arith, l))

after_type-append : (name r : Bytes) → after_type (map lower name) (name ++ r) ≡ some r
unfolding after_type
after_type-append [] r = refl
after_type-append (c ∷ cs) r = ground (arith, after_type-append cs r)

length-map-lower : (name : Bytes) → length (map lower name) ≡ length name
length-map-lower [] = refl
length-map-lower (c ∷ cs) = omega (arith, length-map-lower cs)

is_sse_response-EventStream : (ct : Bytes) → is_sse_response ct ≡ true → EventStream ct
unfolding is_sse_response
is_sse_response-EventStream ct e = elim (Option-cases (after_type sse ct)) [
  | inl other ↦ absurd (ground (arith, other))
  | inr (r, some_rest) ↦
      let (name, q, l) = after_type-split sse ct r some_rest in
      let ended : ends_type r ≡ true = ground (arith, some_rest) in
      let (space, parameters, q', a, p) = ends_type-Ends r ended in
      (name, space, parameters, q ∙ ap (◌++◌ name) q', l, a, p)
]

EventStream-is_sse_response :
    (name space parameters : Bytes)
    → map lower name ≡ sse
    → AllSpace space
    → Parameters parameters
    → is_sse_response (name ++ (space ++ parameters)) ≡ true
unfolding is_sse_response
EventStream-is_sse_response name space parameters l a p =
    let rest = space ++ parameters in
    let begins : after_type sse (name ++ rest) ≡ some rest =
      ap (λ t. after_type t (name ++ rest)) (sym l) ∙ after_type-append name rest in
    let long : length sse ≤ length (name ++ rest) =
      omega (arith, length-append name rest, length-map-lower name, ap length l) in
    ground (arith, begins, long, ends_type-append space parameters a p)

-- The headers of a response are exempt from the hold as a stream of events exactly if the value of
-- its Content-Type is `text/event-stream` in letters of either size, then optional spaces and tabs,
-- then nothing or a semicolon and anything.
pub is_sse_response_iff : (ct : Bytes) → (is_sse_response ct ≡ true) ↔ EventStream ct
is_sse_response_iff ct = (
  is_sse_response-EventStream ct,
  λ h.
      let (name, space, parameters, q, l, a, p) = h in
      ap is_sse_response q ∙ EventStream-is_sse_response name space parameters l a p,
)
