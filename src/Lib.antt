-- ===== src/Lib.antt =====
-- The coraza-nginx connector: an nginx module that hands the requests and responses of a server to
-- the Coraza web application firewall, through the C interface of libcoraza.
--
-- The parts, and the files that model them:
--
-- - Pack (src/ngx_http_coraza_utils.c): `ngx_str_to_char`, and the packed wire format in which the
--   headers of a message go to the engine in one call. Pack/Wire is an independent reader of it.
-- - Runtime (src/ngx_http_coraza_common.h, and what the connector sees of nginx): the context of a
--   request, `ngx_buf_t` and the other structs of nginx that the handlers touch, and the state
--   monad that they run in. A call out of the connector is an element of `Call`, kept in a trace; an
--   `Env` gives the answer to each call as a function of the calls up to it, so nothing is assumed
--   of libcoraza, of the disk or of the allocator, except where a theorem names it as a hypothesis.
-- - Logging (src/ngx_http_coraza_log.c, and `ngx_http_coraza_cleanup`) and Lifecycle, the steps
--   that a transaction takes up to its cleanup, over the handlers of Life.
-- - Intervention (src/ngx_http_coraza_module.c, src/ngx_http_coraza_common.h):
--   `ngx_http_coraza_process_intervention` and `ngx_http_coraza_poll_after_process`.
-- - PreAccess (src/ngx_http_coraza_pre_access.c): the request body's submission and phase 2. The
--   handler's body is cut into functions at its early returns, each named for what it does.
-- - Transaction (`ngx_http_coraza_create_ctx` of src/ngx_http_coraza_module.c) and Rewrite
--   (src/ngx_http_coraza_rewrite.c): the transaction is made, the connection, the URI and the headers
--   of the request go to the engine, and phase 1 runs. Rewrite/Given reads off the calls what the
--   engine knew when it ran the phase; Transaction/Owned follows who frees a transaction.
-- - Headers: what both directions share, the narrowing of lengths to `int` and the packing of a set.
--   Headers/Seen reads off the calls the headers that the engine was given, one by one or packed.
-- - HeaderFilter (src/ngx_http_coraza_header_filter.c): the resolvers (HeaderFilter/Resolvers), the
--   collector (HeaderFilter/Collect), both passes, the flush, phase 3 and the hold
--   (HeaderFilter/Filter). HeaderFilter/Expected describes, as one list, the headers that nginx is
--   about to write; HeaderFilter/Adds is the contract of one submission, and
--   HeaderFilter/Refused goes from the engine's intervention to the answer.
-- - Redirect (src/ngx_http_coraza_header_filter.c): `ngx_http_coraza_prepare_redirect`.
-- - BodyFilter (src/ngx_http_coraza_body_filter.c): the response body's submission, phase 4, and the
--   buffers that are held back while the headers are. BodyFilter/File reads buffers, BodyFilter/Stages
--   has the stages of one turn of the loop, BodyFilter/Filter the held chain and the filter.
--   BodyFilter/Copies sets the held chain against the chains that came, and BodyFilter/Inspects reads
--   off the calls what the engine got.
-- - Conf and Waf (src/ngx_http_coraza_module.c): the configurations of the locations, their merge,
--   and the WAF handles that a worker builds from them, shares between them and frees. Waf/Fed
--   reads off the calls which rules a handle was made of, and Waf/Requested follows a handle on to
--   the transactions of requests.
-- - Response: the header filter and the body filter composed, for a response that is held back.
-- - Life: the handlers of all phases, the filters and the pool's cleanup, on one request in any
--   order. Life/Inert has the account of calls that most of the code keeps.
-- - Directives (src/ngx_http_coraza_module.c): the setters of the directives, the reading of a rules
--   file, the main configuration and the registration of the handlers. Directives/Inspected goes on
--   from there to the workers and to requests.
-- - Dl (src/ngx_http_coraza_dl.c): the open of libcoraza and the pointers into it.
-- - Worker (src/ngx_http_coraza_module.c): the start and the exit of a worker, with Dl and Waf.
-- - Scan (src/ngx_http_coraza_module.c): the scan of rules text for directives that the engine
--   refuses. Scan/Records assembles the records of a text from its lines, as the comment on the
--   scan says that the engine does.
-- - Sse (src/ngx_http_coraza_header_filter.c): the test for server-sent events.
-- - Fuzz (fuzz/fuzz_pack_headers.c, fuzz/fuzz_str_to_char.c, fuzz/ngx_shim.h): the fuzz targets of
--   Pack, with the shim's pool and the answers of `malloc`; a run that fails an assertion has no
--   result.
-- - Samples: the data of the tests and witnesses, which stand in the files named Examples.
--
-- Numbers are native. A byte count is that of a list, and stays below the size of memory; the sum
-- of the held bytes and the length of a file's range are taken modulo 2^64, as `size_t` is. A
-- pointer to an element of the header list is an index into it, a chain of buffers is the list of
-- them, with `pending_chain_last` as the end of that list, and an array of rules carries its address
-- for the test by pointer. The buffers that the filter marks consumed are changed in `State.chain`.
--
-- Loops over lists are structural. A loop over a file is on fuel, as much as the bytes that are left:
-- each turn that goes on has read a byte at least, so with no fuel left the offset is at the end, and
-- a run that ends well has covered the whole range. PreAccess/Fuel and BodyFilter/Fuel compare the
-- loops with themselves on more fuel.
--
-- Not modelled: log lines and error strings, the NULL context of a poll (each caller has tested its
-- own), the dynamic loader's calls behind src/dynlib.h, builds without HTTP/2, HTTP/3 or gzip,
-- the debug macros (src/ddebug.h), the packaging and the test scripts, and nginx's tables of commands
-- and module contexts. What nginx formats (an address, a date, a number)
-- and evaluates (a complex value, a path) is a parameter.
-- `ngx_http_read_client_request_body` is a call that leaves a request body behind; its inline call of
-- the post handler changes only the request's count, which the handler does not read again.
mod Common
pub mod Pack
pub mod Runtime
pub mod Logging
pub mod Intervention
pub mod Lifecycle
pub mod PreAccess
pub mod Redirect
pub mod BodyFilter
pub mod Conf
pub mod Waf
pub mod Samples
pub mod Scan
pub mod Sse
pub mod Fuzz
pub mod Headers
pub mod HeaderFilter
pub mod Rewrite
pub mod Transaction
pub mod Dl
pub mod Directives
pub mod Response
pub mod Worker
pub mod Life
