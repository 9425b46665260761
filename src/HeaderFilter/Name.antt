-- ===== src/HeaderFilter/Name.antt =====
-- The names of the headers that nginx will write (src/ngx_http_coraza_header_filter.c).
use coraza_nginx.Common.{[], ◌∷◌}
use coraza_nginx.Pack.{Bytes}

unfoldable pub server : Bytes
server = b'S' ∷ b'e' ∷ b'r' ∷ b'v' ∷ b'e' ∷ b'r' ∷ []

unfoldable pub date : Bytes
date = b'D' ∷ b'a' ∷ b't' ∷ b'e' ∷ []

unfoldable pub content_length : Bytes
content_length =
    b'C' ∷ b'o' ∷ b'n' ∷ b't' ∷ b'e' ∷ b'n' ∷ b't' ∷ b'-' ∷ b'L' ∷ b'e' ∷ b'n' ∷ b'g' ∷ b't' ∷ b'h'
    ∷ []

unfoldable pub content_type : Bytes
content_type =
    b'C' ∷ b'o' ∷ b'n' ∷ b't' ∷ b'e' ∷ b'n' ∷ b't' ∷ b'-' ∷ b'T' ∷ b'y' ∷ b'p' ∷ b'e' ∷ []

unfoldable pub last_modified : Bytes
last_modified =
    b'L' ∷ b'a' ∷ b's' ∷ b't' ∷ b'-' ∷ b'M' ∷ b'o' ∷ b'd' ∷ b'i' ∷ b'f' ∷ b'i' ∷ b'e' ∷ b'd' ∷ []

unfoldable pub connection : Bytes
connection = b'C' ∷ b'o' ∷ b'n' ∷ b'n' ∷ b'e' ∷ b'c' ∷ b't' ∷ b'i' ∷ b'o' ∷ b'n' ∷ []

unfoldable pub keep_alive : Bytes
keep_alive = b'K' ∷ b'e' ∷ b'e' ∷ b'p' ∷ b'-' ∷ b'A' ∷ b'l' ∷ b'i' ∷ b'v' ∷ b'e' ∷ []

unfoldable pub transfer_encoding : Bytes
transfer_encoding =
    b'T' ∷ b'r' ∷ b'a' ∷ b'n' ∷ b's' ∷ b'f' ∷ b'e' ∷ b'r' ∷ b'-' ∷ b'E' ∷ b'n' ∷ b'c' ∷ b'o' ∷ b'd'
    ∷ b'i' ∷ b'n' ∷ b'g' ∷ []

unfoldable pub vary : Bytes
vary = b'V' ∷ b'a' ∷ b'r' ∷ b'y' ∷ []
