-- ===== src/Consensus.antt =====
-- crates/vuc-platform/src/consensus/lurosonie_manager.rs: the LUROSONIE consensus manager.
pub mod Types
pub mod Power
pub mod Leader
pub mod Ledger
pub mod Mempool
pub mod Chain
pub mod Contract
pub mod Heights
pub mod Produce
pub mod Watch
pub mod Sync
pub mod Start
