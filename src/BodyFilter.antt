-- ===== src/BodyFilter.antt =====
-- src/ngx_http_coraza_body_filter.c: the response body goes to the engine, phase 4 runs at its
-- end, and until then the response's headers and body are held back.
pub mod File
pub mod Stages
pub mod Filter
pub mod Still
pub mod Ends
pub mod Held
pub mod Range
pub mod Payload
pub mod Delivery
pub mod Copies
pub mod Inspects
pub mod Released
pub mod Fuel
mod Examples
