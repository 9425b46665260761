-- ===== src/HeaderFilter.antt =====
-- src/ngx_http_coraza_header_filter.c: the response's headers go to the engine, phase 3 runs, and
-- the header is sent, replaced or held back.
pub mod Name
pub mod Value
pub mod Collect
pub mod Resolvers
pub mod Filter
pub mod Adds
pub mod Expected
pub mod Submits
pub mod Resolved
pub mod Flushed
pub mod Decided
pub mod Refused
pub mod Inspected
pub mod Examples
