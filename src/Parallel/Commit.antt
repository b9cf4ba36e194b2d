-- ===== src/Parallel/Commit.antt =====
-- `validate_transaction_conflicts` and `commit_transaction_changes`.
pub mod Versions
use slura_chain.Base.{
  ℕ, String, Bool, true, false, Option, none, some, List, [], ◌∷◌, ◌==◌, nat_eq, string_eq,
  if◌then◌else◌,
}
use slura_chain.Base.Map.{Map, lookup_or, insert}
use slura_chain.Base.Outcome.{Result, ok, err}
use slura_chain.Base.Text.{join}
use slura_chain.Parallel.Types.{Machine, ParallelTransaction, Engine}

-- The loop over the read set: each slot must have the version that was read.
unfoldable pub reads_current : Map String ℕ → Map String ℕ → Bool
reads_current versions [] = true
reads_current versions ((slot, version_read) ∷ rest) =
    let later = reads_current versions rest in
    if lookup_or slot 0 versions == version_read then later else false

module _ (M : Machine) where
  unfoldable pub validate_transaction_conflicts : ParallelTransaction M → Engine M → Bool
  unfolding reads_current
  validate_transaction_conflicts tx engine =
      reads_current engine.storage_versions (engine.reads tx.read_set)

  abbrev pub keyed_slot : String → String → String
  keyed_slot contract slot = join "storage:" (join contract (join ":" slot))

  -- `entry(contract).or_default()`
  abbrev pub with_contract : String → Engine M → Engine M
  with_contract contract engine = record engine {
    vm = record engine.vm {
      world_storage =
          insert contract (lookup_or contract [] engine.vm.world_storage) engine.vm.world_storage;
    };
  }

  -- One slot that the manager wrote.
  abbrev pub slot_written : String → String → M.Bytes → M.Db → Engine M → Engine M
  slot_written contract slot value db engine = record engine {
    vm = record engine.vm {
      storage_manager = some db;
      world_storage =
          insert contract (insert slot value (lookup_or contract [] engine.vm.world_storage))
            engine.vm.world_storage;
    };
    storage_versions = insert slot 1 engine.storage_versions;
  }

  -- The loop over the write set; the first write that fails ends it.
  unfoldable pub commit_slots :
      String → Map String M.Bytes → M.Db → Engine M → Result M.Db String × Engine M
  commit_slots contract [] db engine = (ok db, engine)
  commit_slots contract ((slot, value) ∷ rest) db engine =
      elim (M.write db (keyed_slot contract slot) value) [
        | err e ↦ (err (join "Write fail " (join (keyed_slot contract slot) (join ": " e))), engine)
        | ok db' ↦ commit_slots contract rest db' (slot_written contract slot value db' engine)
      ]

  -- The last write, whose error is dropped.
  abbrev pub write_version : String → Result M.Db String × Engine M → Result Unit String × Engine M
  write_version contract (err e, engine) = (err e, engine)
  write_version contract (ok db, engine) =
      elim (M.write db (join "version:" contract) M.one_be_bytes) [
        | err e ↦ (ok tt, engine)
        | ok db' ↦ (ok tt, record engine { vm = record engine.vm { storage_manager = some db' } })
      ]

  abbrev pub commit_writes :
      String → Map String M.Bytes → Option M.Db → Engine M → Result Unit String × Engine M
  commit_writes contract [] manager engine = (ok tt, engine)
  commit_writes contract (write ∷ writes) none engine = (err "No storage", engine)
  commit_writes contract (write ∷ writes) (some db) engine =
      write_version contract
        (commit_slots contract (write ∷ writes) db (with_contract contract engine))

  unfoldable pub commit_transaction_changes :
      ParallelTransaction M → Engine M → Result Unit String × Engine M
  unfolding commit_slots
  commit_transaction_changes tx engine =
      commit_writes tx.contract_address (engine.writes tx.write_set) engine.vm.storage_manager
        engine
