-- ===== src/Redirect.antt =====
-- The redirect of src/ngx_http_coraza_header_filter.c that both filters answer with, and the call
-- of the next header filter.
use coraza_nginx.Common.{ℕ, zero, suc, ℤ, pos, negsuc, true, Option, none, some, List, [], ◌∷◌}
use coraza_nginx.Runtime.{
  Elt, Env, HeadersOut, M, ◌>>◌, ask, call, set_req, clear_accept_ranges, next_header_filter,
}

unfoldable pub forward_header : Env → M ℤ
forward_header env = ask env next_header_filter

-- `h->hash = 0` through a pointer into the header list.
unfoldable pub delete_elt : Option ℕ → List Elt → List Elt
delete_elt none hs = hs
delete_elt (some i) [] = []
delete_elt (some zero) (h ∷ hs) = record h { hash = 0 } ∷ hs
delete_elt (some (suc i)) (h ∷ hs) = h ∷ delete_elt (some i) hs

-- The response's headers as `ngx_http_coraza_prepare_redirect` leaves them.
unfoldable pub cleared : ℤ → HeadersOut → HeadersOut
cleared status o = record o {
  status = status;
  status_line = [];
  content_length_n = negsuc 0;
  headers = delete_elt o.etag (
      delete_elt o.content_encoding
        (delete_elt o.last_modified (delete_elt o.content_length o.headers)));
  content_length = none;
  content_type = [];
  content_type_len = 0;
  last_modified_time = negsuc 0;
  last_modified = none;
  content_encoding = none;
  etag = none;
}

unfoldable pub prepare_redirect : ℤ → M (Unit {0})
prepare_redirect status = do
  set_req (λ r. record r { out = cleared status r.out; err_status = pos 0; header_only = true })
  call clear_accept_ranges
