-- ===== src/HeaderFilter/Examples.antt =====
-- Tests and witnesses of the header filter.
use coraza_nginx.Common.{◌≡◌, refl, pos, true, false, some, [], ◌∷◌, length, arith}
use coraza_nginx.Runtime.{Env, HeadersOut, State}
use coraza_nginx.Samples.{passing, denying, request, two_parts, start}
use coraza_nginx.HeaderFilter.Name
use coraza_nginx.HeaderFilter.Value
use coraza_nginx.HeaderFilter.Resolvers.{Head, elt_value}
use coraza_nginx.HeaderFilter.Filter.{header_filter}
use coraza_nginx.HeaderFilter.Expected.{written, listed, expected}
use coraza_nginx.HeaderFilter.Flushed.{EachFits}
use coraza_nginx.HeaderFilter.Inspected.{Ran, IsFresh, header_filter-inspects}

abbrev pub head : Head
head = record {
  http_version = 1001;
  is_head_method = false;
  is_main = true;
  keepalive = true;
  chunked = false;
  gzip_vary = false;
  conf_gzip_vary = true;
  server_tokens = false;
  keepalive_header = 5;
  nginx_ver = 110 ∷ 49 ∷ [];
  cached_http_time = 49 ∷ [];
  print_off = λ n. 54 ∷ [];
  print_time = λ n. 53 ∷ [];
  http_time = λ t. 48 ∷ [];
}

-- A live element, one that is deleted, and a "Server" of the upstream.
abbrev pub elements : HeadersOut
elements = record ((request two_parts).out) {
  headers =
      record { hash = 1; key = 97 ∷ []; value = 98 ∷ [] }
      ∷ record { hash = 0; key = 99 ∷ []; value = 100 ∷ [] }
      ∷ record { hash = 1; key = Name.server; value = 101 ∷ [] }
      ∷ [];
  server = some 2;
}

abbrev pub fresh : State
fresh = record (start two_parts) { req = record (request two_parts) { out = elements } }

pub fresh-IsFresh : IsFresh fresh
fresh-IsFresh = record {
  is_attached = refl;
  is_configured = refl;
  not_triggered = refl;
  not_processed = refl;
}

-- Server, Date, Content-Length, Last-Modified, Keep-Alive, Connection and the live element.
length-expected : length (expected head elements) ≡ 7
unfolding expected written listed
length-expected = refl

pub expected-EachFits : EachFits (expected head fresh.req.out)
unfolding expected written listed elt_value Name.server Name.date Name.content_length
    Name.last_modified Name.connection Name.keep_alive Value.timeout Value.keep_alive
expected-EachFits = ground arith

header_filter-inspects_example : Ran passing head fresh (header_filter passing head fresh)
header_filter-inspects_example =
    header_filter-inspects passing head fresh fresh-IsFresh expected-EachFits

-- An engine that denies in phase 3.
abbrev pub refusing : Env
refusing = record denying { results = λ t. pos 1 }
