-- ===== src/HeaderFilter/Expected.antt =====
-- The headers that a client will get, and that the engine should see, as one list: those that nginx
-- writes from fields of its own, and the live elements of the list but those that are the fields'.
use coraza_nginx.Common.{
  ℕ, ◌+◌, ◌==◌, leb, ℤ, pos, negsuc, Bool, not, ◌&&◌, is_num, eq_code, List, [], ◌∷◌, ◌++◌,
  if◌then◌else◌,
}
use coraza_nginx.Pack.{Bytes, Header}
use coraza_nginx.Runtime.{Elt, HeadersOut}
use coraza_nginx.HeaderFilter.Name
use coraza_nginx.HeaderFilter.Value
use coraza_nginx.HeaderFilter.Resolvers.{
  Head, version_20, value_or, is_nil, keep_alive_header, connection_header,
}
use coraza_nginx.Headers.{header_of}
use coraza_nginx.HeaderFilter.Filter.{is_hoisted}

abbrev pub one : Bytes → Bytes → List Header
one name value = record { name = name; value = value } ∷ []

abbrev pub when : Bool → List Header → List Header
when b hs = if b then hs else []

abbrev pub server : Head → HeadersOut → List Header
server hd o =
    one Name.server
      (value_or o.server o.headers (if hd.server_tokens then hd.nginx_ver else Value.nginx))

abbrev pub date : Head → HeadersOut → List Header
date hd o = one Name.date (value_or o.date o.headers hd.cached_http_time)

abbrev pub content_length : Head → ℤ → List Header
content_length hd (pos n) = one Name.content_length (hd.print_off n)
content_length hd (negsuc n) = []

abbrev pub content_type : HeadersOut → List Header
content_type o = when (not (is_nil o.content_type)) (one Name.content_type o.content_type)

abbrev pub last_modified : Head → HeadersOut → List Header
last_modified hd o =
    when (not (eq_code (negsuc 0) o.last_modified_time))
      (one Name.last_modified (hd.http_time o.last_modified_time))

-- In HTTP/1 only.
abbrev pub connection : Head → HeadersOut → List Header
connection hd o =
    if leb version_20 hd.http_version
    then []
    else if is_num 101 o.status
    then connection_header Value.upgrade ∷ []
    else if hd.keepalive
    then when (not (hd.keepalive_header == 0)) (keep_alive_header hd ∷ [])
      ++ (connection_header Value.keep_alive ∷ [])
    else connection_header Value.close ∷ []

abbrev pub transfer_encoding : Head → List Header
transfer_encoding hd = when hd.chunked (one Name.transfer_encoding Value.chunked)

abbrev pub vary : Head → List Header
vary hd = when (hd.gzip_vary && hd.conf_gzip_vary) (one Name.vary Value.accept_encoding)

unfoldable pub written : Head → HeadersOut → List Header
written hd o =
    server hd o
    ++ (date hd o
        ++ (content_length hd o.content_length_n
            ++ (content_type o
                ++ (last_modified hd o ++ (connection hd o ++ (transfer_encoding hd ++ vary hd))))))

unfoldable pub listed : HeadersOut → ℕ → List Elt → List Header
listed o i [] = []
listed o i (e ∷ es) =
    when (not (e.hash == 0) && not (is_hoisted o i)) (header_of e ∷ []) ++ listed o (i + 1) es

unfoldable pub expected : Head → HeadersOut → List Header
expected hd o = written hd o ++ listed o 0 o.headers
