-- ===== src/Diagnostics.antt =====
-- src/diagnostics/mod.rs: the deterministic diagnostic engine.
pub mod Input
pub mod Connectivity
pub mod Resolution
pub mod Layer
pub mod Filtering
pub mod Engine
mod Examples
