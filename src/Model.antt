-- ===== src/Model.antt =====
-- The data model of src/model: what the probes observe and what the engine concludes.
mod Examples
mod Failure
mod Verdict
mod Latency
mod Dns
mod Observation
unfoldable pub use Failure.*
unfoldable pub use Verdict.*
unfoldable pub use Latency.*
unfoldable pub use Dns.*
unfoldable pub use Observation.*
