-- ===== src/Runtime/Types.antt =====
-- src/ngx_http_coraza_common.h: the context of a request; and what the connector sees of nginx's
-- request and buffers and of libcoraza's interventions.
use coraza_nginx.Common.{ℕ, Bool, Option, List, ℤ}
use coraza_nginx.Pack.{Bytes, Header}

-- An `ngx_buf_t`. `bytes` are those between `pos` and `last`. Offsets in a file are not negative.
pub record Buf : Type 0 where
  pub in_memory : Bool
  pub bytes : Bytes
  pub in_file : Bool
  pub has_file : Bool
  pub fd : ℕ
  pub directio : Bool
  pub file_pos : ℕ
  pub file_last : ℕ
  pub temp_file : Bool
  pub last_buf : Bool
  pub last_in_chain : Bool
  pub flush : Bool

-- `has_transaction` is `coraza_transaction != 0`. A chain of buffers is the list of them; `pending_chain_last` is the end of the list.
pub record Ctx : Type 0 where
  pub has_transaction : Bool
  pub transaction_id : Bytes
  pub pending_chain : List Buf
  pub pending_bytes : ℕ
  pub resp_hdr_collect : Option (List Header)
  pub waiting_more_body : Bool
  pub body_requested : Bool
  pub body_submitted : Bool
  pub processed : Bool
  pub logged : Bool
  pub intervention_triggered : Bool
  pub headers_delayed : Bool
  pub response_body_processable : Bool

-- An `ngx_table_elt_t`.
pub record Elt : Type 0 where
  pub hash : ℕ
  pub key : Bytes
  pub value : Bytes

-- A pointer to an element of the header list is its index; the list only grows at its end.
pub record HeadersOut : Type 0 where
  pub headers : List Elt
  pub server : Option ℕ
  pub date : Option ℕ
  pub last_modified : Option ℕ
  pub content_length : Option ℕ
  pub content_encoding : Option ℕ
  pub etag : Option ℕ
  pub location : Option ℕ
  pub status : ℤ
  pub status_line : Bytes
  pub content_length_n : ℤ
  pub content_type : Bytes
  pub content_type_len : ℕ
  pub last_modified_time : ℤ

-- An `ngx_http_request_body_t`: the chain of buffers, and the size of the temporary file if the
-- body was spilled (`temp_file->file.offset`).
pub record RequestBody : Type 0 where
  pub bufs : List Buf
  pub temp_file : Option ℤ

pub record Request : Type 0 where
  pub request_body : Option RequestBody
  pub body_in_persistent_file : Bool
  pub body_in_clean_file : Bool
  pub body_in_file_only : Bool
  pub runs_phases_on_write : Bool
  pub main_count : ℕ
  pub error_page : Bool
  pub header_sent : Bool
  pub header_only : Bool
  pub filter_need_in_memory : Bool
  pub err_status : ℤ
  pub out : HeadersOut

-- The flags of the location's configuration, after the merge.
pub record LocFlags : Type 0 where
  pub enable : Bool
  pub delay_response_headers : Bool

-- A `coraza_intervention_t`; `target` is its `data`.
pub record Intervention : Type 0 where
  pub status : ℤ
  pub target : Option Bytes

-- The calls out of the connector.
pub data Call : Type 0 where
  -- libcoraza, on the request's transaction
  intervention free_intervention process_logging free_transaction : Call
  process_request_body process_response_body : Call
  request_body_accessible response_body_processable : Call
  update_status_code : ℤ → Call
  append_request_body append_response_body : Bytes → Call
  new_transaction : ℕ → Call
  new_transaction_with_id : ℕ → Bytes → Call
  process_connection : Bytes → ℕ → Bytes → ℕ → Call  -- the client's address and port, the server's
  process_uri : Bytes → Bytes → Bytes → Call  -- the URI, the method and the protocol
  add_request_header add_response_header : Bytes → ℤ → Bytes → ℤ → Call  -- each with its length
  add_request_headers add_response_headers : Bytes → ℤ → ℤ → Call  -- the buffer, its length, the count
  process_request_headers : Call
  process_response_headers : ℤ → Bytes → Call
  -- nginx
  list_push alloc_chain_link calloc_buf : Call
  array_create array_push pcalloc cleanup_add complex_value local_sockaddr : Call
  palloc pstrdup : ℕ → Call
  pnalloc : ℕ → Call
  alloc_chunk free_chunk : Call
  open_file close_file directio_off directio_on : Call
  read_file : ℕ → ℕ → ℕ → Call  -- the descriptor, the size and the offset
  read_client_request_body : Call
  clear_accept_ranges next_header_filter : Call
  next_body_filter : List Buf → Call
  finalize_request : ℤ → Call

-- The calls so far, the last one first.
abbrev pub Trace : Type 0
Trace = List Call

-- What `ngx_read_file` answers: an error, or the bytes that it read.
pub data Read : Type 0 where
  failed : Read
  got : Bytes → Read

-- Code that is not the connector's: each call's answer is a function of the calls up to it.
pub record Env : Type 0 where
  pub interventions : Trace → Option Intervention
  pub results : Trace → ℤ
  pub allocates : Trace → Bool
  pub reads : Trace → Read
  pub bodies : Trace → Option RequestBody
