-- ===== src/Runtime/Count.antt =====
-- How often a trace holds a call of some kind.
use coraza_nginx.Pack.{Bytes}
use coraza_nginx.Common.{ℕ, suc, Bool, true, false, [], ◌∷◌, ◌++◌, if◌then◌else◌}
use coraza_nginx.Runtime.Types.{
  Call, Trace, free_intervention, process_logging, free_transaction, next_header_filter,
  next_body_filter, finalize_request, process_request_body, process_response_body,
  append_request_body, append_response_body, process_request_headers, process_response_headers,
}

abbrev pub count : (Call → Bool) → Trace → ℕ
count p [] = 0
count p (c ∷ t) = if p c then suc (count p t) else count p t

abbrev pub is_free_intervention : Call → Bool
is_free_intervention free_intervention = true
is_free_intervention _ = false

abbrev pub is_process_logging : Call → Bool
is_process_logging process_logging = true
is_process_logging _ = false

abbrev pub is_free_transaction : Call → Bool
is_free_transaction free_transaction = true
is_free_transaction _ = false

abbrev pub is_process_request_body : Call → Bool
is_process_request_body process_request_body = true
is_process_request_body _ = false

abbrev pub is_process_response_body : Call → Bool
is_process_response_body process_response_body = true
is_process_response_body _ = false

-- The bytes that were submitted to the engine as the request's body, in order, and as the
-- response's.
abbrev pub request_bytes : Trace → Bytes
request_bytes [] = []
request_bytes (append_request_body b ∷ t) = request_bytes t ++ b
request_bytes (_ ∷ t) = request_bytes t

abbrev pub response_bytes : Trace → Bytes
response_bytes [] = []
response_bytes (append_response_body b ∷ t) = response_bytes t ++ b
response_bytes (_ ∷ t) = response_bytes t

-- What goes on to the client: a header, a chain of buffers or an error response.
abbrev pub is_forward : Call → Bool
is_forward next_header_filter = true
is_forward (next_body_filter b) = true
is_forward (finalize_request n) = true
is_forward _ = false

abbrev pub is_body_forward : Call → Bool
is_body_forward (next_body_filter b) = true
is_body_forward _ = false

abbrev pub is_process_request_headers : Call → Bool
is_process_request_headers process_request_headers = true
is_process_request_headers _ = false

abbrev pub is_process_response_headers : Call → Bool
is_process_response_headers (process_response_headers status protocol) = true
is_process_response_headers _ = false
