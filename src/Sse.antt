-- ===== src/Sse.antt =====
-- The test for a stream of server-sent events, whose headers are not held back
-- (`ngx_http_coraza_is_sse_response` of src/ngx_http_coraza_header_filter.c).
pub mod Grammar
mod Examples
use coraza_nginx.Common.{
  ◌||◌, ◌==◌, Bool, true, false, Option, none, some, [], ◌∷◌, ltb, length, if◌then◌else◌,
}
use coraza_nginx.Pack.{Bytes}
use coraza_nginx.Scan.{lower}

-- "text/event-stream"
abbrev pub sse : Bytes
sse =
    116 ∷ 101 ∷ 120 ∷ 116 ∷ 47 ∷ 101 ∷ 118 ∷ 101 ∷ 110 ∷ 116 ∷ 45 ∷ 115 ∷ 116 ∷ 114 ∷ 101 ∷ 97 ∷ 109
    ∷ []

-- What follows the media type in the value, if it begins with it, letters of either size.
unfoldable pub after_type : Bytes → Bytes → Option Bytes
after_type [] cs = some cs
after_type (t ∷ ts) [] = none
after_type (t ∷ ts) (c ∷ cs) = let rest = after_type ts cs in if lower c == t then rest else none

-- The loop over what follows.
unfoldable pub ends_type : Bytes → Bool
ends_type [] = true
ends_type (c ∷ cs) = let rest = ends_type cs in if c == 32 || c == 9 then rest else c == 59

abbrev pub ends_some : Option Bytes → Bool
ends_some none = false
ends_some (some rest) = ends_type rest

unfoldable pub is_sse_response : Bytes → Bool
is_sse_response ct = if ltb (length ct) (length sse) then false else ends_some (after_type sse ct)
