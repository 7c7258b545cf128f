-- ===== src/Diagnostics/Layer.antt =====
-- src/diagnostics/layer.rs: the rules of the protocol layers.
mod Transport
mod Http
mod Consistency
mod Repeated
mod Certificate
unfoldable pub use Transport.*
unfoldable pub use Http.*
unfoldable pub use Consistency.*
unfoldable pub use Repeated.*
unfoldable pub use Certificate.*
