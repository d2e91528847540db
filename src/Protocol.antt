-- ===== src/Protocol.antt =====
-- shared/protocol: limits, task states, error reasons, the persisted record and its validation.
mod Limits
mod Status
mod Errors
mod Records
mod Host
mod Json
pub mod Validation
pub mod Schema
pub use Limits.*
pub use Status.*
pub use Errors.*
pub use Records.*
pub use Host.*
unfoldable pub use Json.*
