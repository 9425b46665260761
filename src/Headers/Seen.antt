-- ===== src/Headers/Seen.antt =====
-- The headers that the engine was given, by its calls so far.
use coraza_nginx.Common.{
  ℕ, ◌+◌, ℤ, pos, negsuc, is_neg, Option, none, some, List, [], ◌∷◌, ◌++◌, take, if◌then◌else◌,
}
use coraza_nginx.Pack.{Bytes, Header}
use coraza_nginx.Pack.Wire.{read_headers}
use coraza_nginx.Runtime.{
  Env, Trace, add_request_header, add_request_headers, add_response_header, add_response_headers,
}

-- The bytes that a pointer and an `int` length denote.
abbrev pub span : Bytes → ℤ → Bytes
span bs (pos n) = take n bs
span bs (negsuc n) = []

abbrev pub one_header : Bytes → ℤ → Bytes → ℤ → List Header
one_header name n value m = record { name = span name n; value = span value m } ∷ []

-- The headers of a packed buffer, all of them or none.
abbrev pub whole : Option (List Header × Bytes) → List Header
whole none = []
whole (some (hs, rest)) = hs

abbrev pub unpack : Bytes → ℤ → ℤ → List Header
unpack packed n (pos count) = whole (read_headers count (span packed n))
unpack packed n (negsuc k) = []

-- What the engine refuses adds nothing.
abbrev pub batch : ℤ → List Header → List Header
batch rc hs = if is_neg rc then [] else hs

abbrev pub request_headers : Env → Trace → List Header
request_headers env [] = []
request_headers env (add_request_header name n value m ∷ t) =
    request_headers env t
    ++ batch (env.results (add_request_header name n value m ∷ t)) (one_header name n value m)
request_headers env (add_request_headers packed n count ∷ t) =
    request_headers env t
    ++ batch (env.results (add_request_headers packed n count ∷ t)) (unpack packed n count)
request_headers env (_ ∷ t) = request_headers env t

-- The headers of the request that the engine was given by themselves and refused.
abbrev pub refusals : Env → Trace → ℕ
refusals env [] = 0
refusals env (add_request_header name n value m ∷ t) =
    refusals env t + (if is_neg (env.results (add_request_header name n value m ∷ t)) then 1 else 0)
refusals env (_ ∷ t) = refusals env t

-- A caller of `coraza_add_response_header` that goes on has had no refusal.
abbrev pub response_headers : Env → Trace → List Header
response_headers env [] = []
response_headers env (add_response_header name n value m ∷ t) =
    response_headers env t ++ one_header name n value m
response_headers env (add_response_headers packed n count ∷ t) =
    response_headers env t
    ++ batch (env.results (add_response_headers packed n count ∷ t)) (unpack packed n count)
response_headers env (_ ∷ t) = response_headers env t
