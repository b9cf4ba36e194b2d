-- ===== src/Tests.antt =====
-- The theorems at concrete inputs.
mod Fixtures
mod Consensus
mod Chain
mod Ledger
mod Parallel
mod Bridge
mod Others
mod Uvm
mod Bundle
mod Apps
