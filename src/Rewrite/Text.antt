-- ===== src/Rewrite/Text.antt =====
-- The C strings of src/ngx_http_coraza_rewrite.c, each with the zero byte at its end.
use coraza_nginx.Common.{[], ◌∷◌}
use coraza_nginx.Pack.{Bytes}

unfoldable pub unix : Bytes
unix = b'u' ∷ b'n' ∷ b'i' ∷ b'x' ∷ 0 ∷ []

unfoldable pub http_0_9 : Bytes
http_0_9 = b'H' ∷ b'T' ∷ b'T' ∷ b'P' ∷ b'/' ∷ b'0' ∷ b'.' ∷ b'9' ∷ 0 ∷ []

unfoldable pub http_1_0 : Bytes
http_1_0 = b'H' ∷ b'T' ∷ b'T' ∷ b'P' ∷ b'/' ∷ b'1' ∷ b'.' ∷ b'0' ∷ 0 ∷ []

unfoldable pub http_1_1 : Bytes
http_1_1 = b'H' ∷ b'T' ∷ b'T' ∷ b'P' ∷ b'/' ∷ b'1' ∷ b'.' ∷ b'1' ∷ 0 ∷ []

unfoldable pub http_2 : Bytes
http_2 = b'H' ∷ b'T' ∷ b'T' ∷ b'P' ∷ b'/' ∷ b'2' ∷ b'.' ∷ b'0' ∷ 0 ∷ []

unfoldable pub http_3 : Bytes
http_3 = b'H' ∷ b'T' ∷ b'T' ∷ b'P' ∷ b'/' ∷ b'3' ∷ b'.' ∷ b'0' ∷ 0 ∷ []
