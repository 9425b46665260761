-- ===== src/Sse/Examples.antt =====
-- Tests and witnesses of the test for event streams.
use coraza_nginx.Common.{◌≡◌, ◌↔◌, refl, true, false, ◌++◌, [], ◌∷◌}
use coraza_nginx.Pack.{Bytes}
use coraza_nginx.Sse.{sse, after_type, ends_type, is_sse_response}
use coraza_nginx.Sse.Grammar.{EventStream, is_sse_response_iff}

-- "text/event-stream ; x"
abbrev with_parameter : Bytes
with_parameter = sse ++ (32 ∷ 59 ∷ 32 ∷ 120 ∷ [])

accepted : is_sse_response with_parameter ≡ true
unfolding is_sse_response after_type ends_type
accepted = refl

-- "text/event-streamx"
refused : is_sse_response (sse ++ (120 ∷ [])) ≡ false
unfolding is_sse_response after_type ends_type
refused = refl

is_sse_response_iff_example : (is_sse_response with_parameter ≡ true) ↔ EventStream with_parameter
is_sse_response_iff_example = is_sse_response_iff with_parameter
