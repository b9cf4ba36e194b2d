-- ===== src/Storage.antt =====
-- crates/vuc-storage/src/storing_access.rs: `RocksDBManagerImpl` over the RocksDB handle. The
-- database and serde_json are not part of the repository, so they are the interface `Rocks`.
mod Defs
pub mod Metadata
unfoldable pub use Defs.*
