-- ===== src/Parallel.antt =====
-- crates/vuc-tx/src/slurachain_vm.rs: the optimistic parallel engine and its entry points.
pub mod Types
pub mod Speculate
pub mod Batch
pub mod Commit
pub mod Rounds
