-- ===== src/HeaderFilter/Resolvers.antt =====
-- The resolvers: the headers that nginx will write from the fields of its own.
use coraza_nginx.Common.{
  ℕ, zero, suc, ℤ, pos, negsuc, Bool, true, false, ◌&&◌, ◌==◌, leb, is_num, eq_code, ngx_ok,
  ngx_error, Option, none, some, List, [], ◌∷◌, ◌++◌, if◌then◌else◌,
}
use coraza_nginx.Pack.{Bytes, Header}
use coraza_nginx.Runtime.{Elt, Env, M, pure, branch, ◌>>=◌, get}
use coraza_nginx.HeaderFilter.Name
use coraza_nginx.HeaderFilter.Value
use coraza_nginx.HeaderFilter.Collect.{add_header, and_then}

-- What the filter reads of the request, the core module's configuration and nginx, and does not
-- change; `print_off` is "%O" of `ngx_sprintf`, `print_time` is "%T", and `http_time` is `ngx_http_time`.
pub record Head : Type 0 where
  pub http_version : ℕ
  pub is_head_method : Bool
  pub is_main : Bool
  pub keepalive : Bool
  pub chunked : Bool
  pub gzip_vary : Bool
  pub conf_gzip_vary : Bool
  pub server_tokens : Bool
  pub keepalive_header : ℕ
  pub nginx_ver : Bytes
  pub cached_http_time : Bytes
  pub print_off : ℕ → Bytes
  pub print_time : ℕ → Bytes
  pub http_time : ℤ → Bytes

-- NGX_HTTP_VERSION_20.
abbrev pub version_20 : ℕ
version_20 = 2000

-- The value of the element that a pointer denotes.
unfoldable pub elt_value : List Elt → ℕ → Bytes
elt_value [] i = []
elt_value (e ∷ es) zero = e.value
elt_value (e ∷ es) (suc i) = elt_value es i

abbrev pub value_or : Option ℕ → List Elt → Bytes → Bytes
value_or none es default = default
value_or (some i) es default = elt_value es i

-- `ngx_http_coraza_resolv_header_server` and its siblings; the text of each that is fixed is in
-- the modules Name and Value.
unfoldable pub resolv_header_server : Env → Head → M ℤ
resolv_header_server env hd = do
  s ← get
  add_header env (record {
    name = Name.server;
    value =
        value_or s.req.out.server s.req.out.headers
          (if hd.server_tokens then hd.nginx_ver else Value.nginx);
  })

unfoldable pub resolv_header_date : Env → Head → M ℤ
resolv_header_date env hd = do
  s ← get
  add_header env (record {
    name = Name.date;
    value = value_or s.req.out.date s.req.out.headers hd.cached_http_time;
  })

unfoldable pub length_header : Env → Head → ℤ → M ℤ
length_header env hd (negsuc n) = pure ngx_ok
length_header env hd (pos n) =
    add_header env (record { name = Name.content_length; value = hd.print_off n })

unfoldable pub resolv_header_content_length : Env → Head → M ℤ
unfolding length_header
resolv_header_content_length env hd = do s ← get; length_header env hd s.req.out.content_length_n

abbrev pub is_nil : Bytes → Bool
is_nil [] = true
is_nil (c ∷ cs) = false

unfoldable pub resolv_header_content_type : Env → Head → M ℤ
resolv_header_content_type env hd = do
  s ← get
  branch (is_nil s.req.out.content_type) (pure ngx_ok)
      (add_header env (record { name = Name.content_type; value = s.req.out.content_type }))

unfoldable pub resolv_header_last_modified : Env → Head → M ℤ
resolv_header_last_modified env hd = do
  s ← get
  branch (eq_code (negsuc 0) s.req.out.last_modified_time) (pure ngx_ok) (
      add_header env
        (record { name = Name.last_modified; value = hd.http_time s.req.out.last_modified_time }))

-- "timeout=" and the seconds.
abbrev pub keep_alive_header : Head → Header
keep_alive_header hd = record {
  name = Name.keep_alive;
  value = Value.timeout ++ hd.print_time hd.keepalive_header;
}

abbrev pub connection_header : Bytes → Header
connection_header value = record { name = Name.connection; value = value }

unfoldable pub resolv_header_connection : Env → Head → M ℤ
resolv_header_connection env hd = branch (leb version_20 hd.http_version) (pure ngx_ok) (do
  s ← get
  branch (is_num 101 s.req.out.status) (add_header env (connection_header Value.upgrade)) (
      branch hd.keepalive
        (branch (hd.keepalive_header == 0) (add_header env (connection_header Value.keep_alive)) (do
          rc ← add_header env (keep_alive_header hd)
          branch (eq_code ngx_ok rc) (add_header env (connection_header Value.keep_alive))
              (pure ngx_error)))
        (add_header env (connection_header Value.close))))

unfoldable pub resolv_header_transfer_encoding : Env → Head → M ℤ
resolv_header_transfer_encoding env hd =
    branch hd.chunked
      (add_header env (record { name = Name.transfer_encoding; value = Value.chunked }))
      (pure ngx_ok)

unfoldable pub resolv_header_vary : Env → Head → M ℤ
resolv_header_vary env hd =
    branch (hd.gzip_vary && hd.conf_gzip_vary)
      (add_header env (record { name = Name.vary; value = Value.accept_encoding })) (pure ngx_ok)

-- The loop over `ngx_http_coraza_headers_out`.
unfoldable pub headers_out : Env → Head → M ℤ
headers_out env hd = and_then (resolv_header_server env hd) (
    and_then (resolv_header_date env hd) (
      and_then (resolv_header_content_length env hd) (
        and_then (resolv_header_content_type env hd) (
          and_then (resolv_header_last_modified env hd) (
            and_then (resolv_header_connection env hd)
              (and_then (resolv_header_transfer_encoding env hd) (resolv_header_vary env hd)))))))
