-- ===== src/HeaderFilter/Value.antt =====
-- Values that are fixed texts (src/ngx_http_coraza_header_filter.c).
use coraza_nginx.Common.{[], ◌∷◌}
use coraza_nginx.Pack.{Bytes}

unfoldable pub nginx : Bytes
nginx = b'n' ∷ b'g' ∷ b'i' ∷ b'n' ∷ b'x' ∷ []

unfoldable pub upgrade : Bytes
upgrade = b'u' ∷ b'p' ∷ b'g' ∷ b'r' ∷ b'a' ∷ b'd' ∷ b'e' ∷ []

unfoldable pub keep_alive : Bytes
keep_alive = b'k' ∷ b'e' ∷ b'e' ∷ b'p' ∷ b'-' ∷ b'a' ∷ b'l' ∷ b'i' ∷ b'v' ∷ b'e' ∷ []

unfoldable pub close : Bytes
close = b'c' ∷ b'l' ∷ b'o' ∷ b's' ∷ b'e' ∷ []

unfoldable pub timeout : Bytes
timeout = b't' ∷ b'i' ∷ b'm' ∷ b'e' ∷ b'o' ∷ b'u' ∷ b't' ∷ b'=' ∷ []

unfoldable pub chunked : Bytes
chunked = b'c' ∷ b'h' ∷ b'u' ∷ b'n' ∷ b'k' ∷ b'e' ∷ b'd' ∷ []

unfoldable pub accept_encoding : Bytes
accept_encoding =
    b'A' ∷ b'c' ∷ b'c' ∷ b'e' ∷ b'p' ∷ b't' ∷ b'-' ∷ b'E' ∷ b'n' ∷ b'c' ∷ b'o' ∷ b'd' ∷ b'i' ∷ b'n'
    ∷ b'g' ∷ []

-- "HTTP/1.1", "HTTP/2.0" and "HTTP/3.0".
unfoldable pub http_1_1 : Bytes
http_1_1 = b'H' ∷ b'T' ∷ b'T' ∷ b'P' ∷ b'/' ∷ b'1' ∷ b'.' ∷ b'1' ∷ []

unfoldable pub http_2 : Bytes
http_2 = b'H' ∷ b'T' ∷ b'T' ∷ b'P' ∷ b'/' ∷ b'2' ∷ b'.' ∷ b'0' ∷ []

unfoldable pub http_3 : Bytes
http_3 = b'H' ∷ b'T' ∷ b'T' ∷ b'P' ∷ b'/' ∷ b'3' ∷ b'.' ∷ b'0' ∷ []
