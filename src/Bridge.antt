-- ===== src/Bridge.antt =====
-- crates/vuc-bridge/src/lib.rs: the Bitcoin bridge.
mod Types
mod Deposits
pub mod Anchor
pub mod Registration
pub mod Watcher
pub mod Minting
pub mod Outputs
pub use Types.*
unfoldable pub use Deposits.*
