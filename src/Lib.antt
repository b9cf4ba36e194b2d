-- ===== src/Lib.antt =====
-- Verification of slura-chain: the consensus manager, its Bitcoin bridge, its metadata store, the
-- parallel transaction engine, the interpreter of contract bytecode, the committee, and the
-- kernel's message ring, archive reader and application registry.
--
-- Parts and how they interact. `LurosonieManager` (crates/vuc-platform/src/consensus/
-- lurosonie_manager.rs) keeps validators, delegations, the mempool, the chain and native balances.
-- Its loop asks the Bitcoin bridge (crates/vuc-bridge/src/lib.rs) for the height of a Bitcoin node
-- and makes one block for each new height; blocks and heights go to the metadata store
-- (crates/vuc-storage/src/storing_access.rs). The engine (crates/vuc-tx/src/slurachain_vm.rs) runs
-- batches of contract calls on the virtual machine, whose interpreter (crates/vuc-reader/src/uvm/
-- runtime/src/interpreter.rs) runs the code of one contract. `Committee` (crates/vuc-types/src/committee.rs)
-- and the ring buffer (crates/vuc-core/lunee-ker/src/whesere_ipc.rs) stand alone, as does the reader of the archives
-- that applications come in (bundle_loader/zip_reader.rs beside it).
--
-- Files.
--   Base: tests, lists, maps, 64-bit words, results, locks and decimal text.
--   Storage: `SlurachainMetadata`, `read`, `write`, `store_metadata`, `get_metadata`.
--   Bridge: Types has the data, Deposits the operations (`register_deposit`,
--     `mint_vez_for_deposit`, `check_deposit`, `process_new_block`, one turn of `watch_blocks`,
--     `get_block_anchor`); the others have the theorems.
--   Consensus: Types has the data and the environment; Power has `calculate_relay_powers`,
--     `calculate_stake_power` and `get_consensus_threshold`; Leader the choice of the leader and
--     the tests on validators; Ledger the native balances; Mempool `pending_transactions`; Chain
--     the chain and its lookups; Contract the calls of the VEZ contract; Heights the saved Bitcoin
--     height; Produce `produce_lurosonie_block_with_consensus` and `validate_and_add_transaction`;
--     Watch the loop of `start_lurosonie_consensus`; Sync `sync_from_database`; Start
--     `new_with_storage` and the manager as a state machine. Files below each of them have its
--     theorems.
--   Parallel: Types has the engine's state, Speculate the execution of one transaction, Commit
--     validation and commit, Batch the retry loop; Versions and Rounds have the theorems.
--   Uvm: Word has the 256-bit words, Modular `addmod_safe` and `mulmod_safe`, Memory
--     `resize_memory_ebpf` and the copies, Machine the state of a run; Arithmetic, Environment,
--     State, Address and Flow have one `op_` function for each instruction; Run has the loop and
--     Execute what `execute_program` does before it. Laws and the files below the others have the
--     theorems.
--   Bundle: Zip has `ZipReader::new` and `extract_file`, Zip/Listing `list_ovc_modules` and
--     `list_all_assets`; Bounds, Listed and Names have the theorems.
--   Apps: Menu has the items of the dock's menus and Registry the applications of the dock, of
--     crates/vuc-core/lunee-ker/src/app_registry.rs; Parts, Pinned and Publish have the
--     theorems.
--   Governance: `slurachainGovernance` of crates/vuc-platform/src/consensus/slurachain_gov.rs.
--   Committee and Ipc: the committee with its weights, the ring with its frames.
--   Tests: the theorems at concrete inputs.
--
-- Conventions. State is passed on explicitly; a `RwLock` whose field is read and written by one
-- call at a time is the field. Where a call asks for a lock that it holds itself, the lock is
-- passed too, and `none` is a task that waits for ever. `HashMap` and `DashMap` are lists of
-- entries in iteration order. A `u64` keeps its wrap-around, as in a release build, and the
-- saturating operations are written out. The time and what a remote node answers are arguments.
-- Log lines are left out, and error texts are constructors, unless a result carries them.
--
-- The channel of `block_sender` holds 100 blocks, as crates/vuc-platform/src/engine_platform.rs makes
-- it; its receiver is kept and nothing reads it, so a send to the full channel waits for ever, which
-- is the value `waiting` of the manager's `Error`. The state is then that in which the other tasks go
-- on. `sync_from_database` has no caller, and is no step of the state machine.
--
-- Parameters. The VM's `execute_module`, serde_json, the SHA3 and hex crates, RocksDB, the HTTP
-- client and tokio's locks are fields of `Env`, `Machine`, `Rocks`, `Rpc`, `Host` and `RwLock`; what
-- is asked of RocksDB and of the locks stands in `RocksLaws` and `RwLockLaws`, which concrete
-- stores and locks meet. In the engine, the transactions of a batch take the lock of the VM in the
-- order of the batch, and the read and write sets that clones share are cells of the engine.
--
-- The instructions that run other code (0xef, the creations and the calls) are the function `system`
-- of the machine; keccak, hexadecimal text and the reads of the database are fields of the
-- interpreter's `Host`, and miniz_oxide is `decompress`. A panic is a value of `Step` and of `Read`.
--
-- Bounds and fuel. `process_heights` is by recursion on the number of new heights, the retry loop
-- on the number of retries that are left, which starts at 3 as in the source. `sync_from` has fuel:
-- `turns + 1` is enough when the key `turns` numbers further is absent and fits a `u64`. `mulmod_safe` has 256 rounds,
-- one for each bit, and the loops over an archive have one round more than there are bytes; both
-- are proved enough. `run` has fuel because a contract need not stop.
--
-- Not modelled: the endless loops themselves (their bodies are), statistics that are only reported,
-- the contract state reads, the RPC server, the loading of contracts by the virtual machine, the
-- JSON text of the interpreter's results, the copy of the rbpf library beside it, the other parts
-- of the kernel (hardware and firmware) and the UEFI crates.
pub mod Apps
pub mod Base
pub mod Storage
pub mod Bridge
pub mod Bundle
pub mod Committee
pub mod Consensus
pub mod Governance
pub mod Ipc
pub mod Parallel
pub mod Uvm
pub mod Tests
