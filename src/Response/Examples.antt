-- ===== src/Response/Examples.antt =====
-- Tests and witnesses of a response that is held back.
use coraza_nginx.Common.{◌≡◌, refl, ℤ, true, false, ngx_ok, [], ◌∷◌, ◌++◌}
use coraza_nginx.Pack.{pack_headers, packed_size, refused}
use coraza_nginx.Headers.{pack}
use coraza_nginx.Runtime.{State}
use coraza_nginx.Samples.{passing, part}
use coraza_nginx.Intervention.{poll_after_process}
use coraza_nginx.Sse.{is_sse_response}
use coraza_nginx.HeaderFilter.Name
use coraza_nginx.HeaderFilter.Value
use coraza_nginx.HeaderFilter.Collect.{copy, collect_header, collect_or_submit, add_header}
use coraza_nginx.HeaderFilter.Resolvers.{
  elt_value, resolv_header_server, resolv_header_date, length_header, resolv_header_content_length,
  resolv_header_content_type, resolv_header_last_modified, resolv_header_connection,
  resolv_header_transfer_encoding, resolv_header_vary, headers_out,
}
use coraza_nginx.HeaderFilter.Filter.{
  list_headers, submit_list, replay, hand_over, submit_bulk, flush_pairs, flush_collected,
  submit_headers, is_held, hold_or_send, response_headers_phase, headers_phase, decide,
  phase_and_decide, passes_on, header_filter,
}
use coraza_nginx.HeaderFilter.Examples.{head, fresh, fresh-IsFresh, expected-EachFits}
use coraza_nginx.BodyFilter.Still.{forwards}
use coraza_nginx.BodyFilter.Payload.{payload}
use coraza_nginx.BodyFilter.Released.{Released}
use coraza_nginx.BodyFilter.Filter.{body_filter}
use coraza_nginx.Response.{hand, held_back, body_call, Calls-Released}

abbrev held : ℤ × State
held = header_filter passing head fresh

held_ok :
    (held.0 ≡ ngx_ok)
    × (held.1.ctx.headers_delayed ≡ true)
    × (held.1.attached ≡ true)
    × (held.1.req.error_page ≡ false)
unfolding header_filter passes_on submit_headers headers_out resolv_header_server resolv_header_date
    length_header resolv_header_content_length resolv_header_content_type
    resolv_header_last_modified resolv_header_connection resolv_header_transfer_encoding
    resolv_header_vary elt_value add_header collect_or_submit collect_header copy submit_list
    list_headers flush_collected flush_pairs submit_bulk hand_over pack pack_headers packed_size
    refused replay phase_and_decide headers_phase response_headers_phase poll_after_process decide
    hold_or_send is_held is_sse_response Name.server Name.date Name.content_length
    Name.last_modified Name.connection Name.keep_alive Value.timeout Value.keep_alive
held_ok = (refl, refl, refl, refl)

-- The whole body comes in one chain of two buffers.
Calls-Released_example :
    Released
      (forwards fresh)
      ([] ++ payload (part false ∷ part true ∷ []))
      (body_filter passing (hand (part false ∷ part true ∷ []) held.1))
Calls-Released_example = Calls-Released fresh-IsFresh refl expected-EachFits (
    body_call (held_back held_ok.0 held_ok.1) held_ok.1 held_ok.2 held_ok.3
      (part false ∷ part true ∷ []) refl (refl, (refl, tt)))
