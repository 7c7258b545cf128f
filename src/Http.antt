-- ===== src/Http.antt =====
-- src/http_common.rs: what the HTTP probes share.
pub mod Body
pub mod Authority
mod Examples
