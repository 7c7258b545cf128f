-- ===== src/Dns.antt =====
-- src/dns.rs: the DNS wire format, the endpoints of encrypted DNS, and repeated queries.
pub mod Outcome
pub mod Name
pub mod Message
pub mod Query
pub mod Base64
pub mod Endpoint
pub mod Repeat
mod Examples
