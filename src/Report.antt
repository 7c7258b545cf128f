-- ===== src/Report.antt =====
-- src/report.rs: the helpers that the engine shares with the human report.
mod Tests
pub mod Lifetime
pub mod Coverage
pub mod Escapes
pub mod Columns
pub mod Certificates
pub mod Observations
pub mod Handshakes
pub mod Http
pub mod Repeats
pub mod Routes
pub mod Diagnoses
pub mod Stripped
pub mod Samples
mod Examples
