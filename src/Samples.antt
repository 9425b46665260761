-- ===== src/Samples.antt =====
-- Data for the tests and witnesses: an engine, a disk and a request.
use coraza_nginx.Common.{
  ℕ, ◌-◌, refl, inr, ℤ, pos, ngx_ok, Bool, true, false, none, some, [], ◌∷◌, min, take, drop,
  length, arith,
}
use coraza_nginx.Pack.{Bytes}
use coraza_nginx.Runtime.{
  Buf, Ctx, Env, HeadersOut, Intervention, Read, got, Request, RequestBody, State, Trace, open_file,
  process_request_body, read_file, request_body_accessible,
}
use coraza_nginx.Rewrite.{Incoming}
use coraza_nginx.PreAccess.FileBody.{ReadsFile}

-- The file "abc".
abbrev pub content : Bytes
content = 97 ∷ 98 ∷ 99 ∷ []

-- A disk on which each descriptor reads as this file.
abbrev pub reads_content : Trace → Read
reads_content (read_file fd size offset ∷ t) =
    got (take (min size (length content - offset)) (drop offset content))
reads_content _ = got []

-- An engine that takes everything; its answer for the body's access and its result for phase 2.
abbrev pub answers : ℤ → ℤ → Trace → ℤ
answers accessible processed (request_body_accessible ∷ t) = accessible
answers accessible processed (process_request_body ∷ t) = processed
answers accessible processed (open_file ∷ t) = pos 7
answers accessible processed _ = ngx_ok

abbrev pub passing : Env
passing = record {
  interventions = λ t. none;
  results = answers (pos 1) ngx_ok;
  allocates = λ t. true;
  reads = reads_content;
  bodies = λ t. none;
}

-- The same, where the engine does not want the body's bytes.
abbrev pub without_access : Env
without_access = record passing { results = answers ngx_ok ngx_ok }

-- A redirect to "/a", and behind it a line break that must not reach the client.
abbrev pub redirecting : Intervention
redirecting = record { status = pos 302; target = some (47 ∷ 97 ∷ 13 ∷ 10 ∷ 120 ∷ []) }

-- An engine that interrupts in phase 2 and holds the redirect.
abbrev pub denying : Env
denying = record passing {
  interventions = λ t. some redirecting;
  results = answers (pos 1) (pos 1);
}

pub passing-ReadsFile : (fd : ℕ) → ReadsFile passing fd content
passing-ReadsFile fd = record {
  reads_prefix =
      λ size offset t. inr (min size (length content - offset), omega arith, omega arith, refl);
}

abbrev pub part : Bool → Buf
part last = record {
  in_memory = true;
  bytes = content;
  in_file = false;
  has_file = false;
  fd = 0;
  directio = false;
  file_pos = 0;
  file_last = 0;
  temp_file = false;
  last_buf = last;
  last_in_chain = last;
  flush = false;
}

-- The file's second and third byte.
abbrev pub file_part : Buf
file_part = record (part true) {
  in_memory = false;
  bytes = [];
  in_file = true;
  has_file = true;
  fd = 7;
  file_pos = 1;
  file_last = 3;
}

abbrev pub no_headers : HeadersOut
no_headers = record {
  headers = [];
  server = none;
  date = none;
  last_modified = none;
  content_length = none;
  content_encoding = none;
  etag = none;
  location = none;
  status = pos 200;
  status_line = [];
  content_length_n = pos 6;
  content_type = [];
  content_type_len = 0;
  last_modified_time = pos 0;
}

-- The body is in memory in two buffers, or in a file.
abbrev pub two_parts : RequestBody
two_parts = record { bufs = part false ∷ part true ∷ []; temp_file = none }

abbrev pub spilled : RequestBody
spilled = record { bufs = []; temp_file = some (pos 3) }

abbrev pub request : RequestBody → Request
request body = record {
  request_body = some body;
  body_in_persistent_file = false;
  body_in_clean_file = false;
  body_in_file_only = false;
  runs_phases_on_write = false;
  main_count = 1;
  error_page = false;
  header_sent = false;
  header_only = false;
  filter_need_in_memory = false;
  err_status = pos 0;
  out = no_headers;
}

abbrev pub context : Bool → Ctx
context delayed = record {
  has_transaction = true;
  transaction_id = [];
  pending_chain = [];
  pending_bytes = 0;
  resp_hdr_collect = none;
  waiting_more_body = false;
  body_requested = false;
  body_submitted = false;
  processed = false;
  logged = false;
  intervention_triggered = false;
  headers_delayed = delayed;
  response_body_processable = true;
}

-- Where the connector is on.
abbrev pub start : RequestBody → State
start body = record {
  trace = [];
  ctx = context false;
  attached = true;
  mcf = some (record { enable = true; delay_response_headers = true });
  req = request body;
  chain = [];
  cleanups = 1;
}

-- The response's headers are held back, and the whole body comes in two buffers.
abbrev pub holding : State
holding = record (start two_parts) { ctx = context true; chain = part false ∷ part true ∷ [] }

-- An engine that makes transaction 9 and takes everything.
abbrev pub creating : Env
creating = record passing { results = λ t. pos 9 }

-- Before the rewrite phase, where the connector is on.
abbrev pub arriving : State
arriving = record (start two_parts) { attached = false; cleanups = 0 }

-- "GET /" from "a" to "b", with a header, a deleted header and another header.
abbrev pub incoming : Incoming
incoming = record {
  wafs = record { loc_waf = 0; main_waf = 4; transaction_id = some (105 ∷ []) };
  client_is_unix = false;
  addr_text = 97 ∷ [];
  client_port = 1234;
  server_is_unix = true;
  server_addr = [];
  server_port = 80;
  http_version = 1001;
  unparsed_uri = 47 ∷ [];
  method_name = 71 ∷ 69 ∷ 84 ∷ [];
  headers =
      record { hash = 1; key = 97 ∷ []; value = 98 ∷ [] }
      ∷ record { hash = 0; key = 99 ∷ []; value = 100 ∷ [] }
      ∷ record { hash = 1; key = 101 ∷ []; value = [] }
      ∷ [];
}
