-- ===== src/Parallel/Commit/Versions.antt =====
-- What a commit does to the versions of the slots, and what validation makes of it.
use slura_chain.Base.{
  ℕ, ◌≡◌, refl, ap, ◌∙◌, String, Option, none, some, [], ◌∷◌, nat_eq, string_eq, if◌then◌else◌,
  arith, inl, inr,
}
use slura_chain.Base.Map.{Map, lookup, contains, lookup-insert}
use slura_chain.Base.Outcome.{Result, ok, err, Result-cases}
use slura_chain.Base.Text.{join}
use slura_chain.Parallel.Types.{Machine, ParallelTransaction, Engine}
use slura_chain.Parallel.Commit.{
  keyed_slot, with_contract, slot_written, commit_slots, write_version, commit_writes,
  commit_transaction_changes,
}

-- The version of a slot after the slots of a write set are put at 1.
abbrev pub version_after : {V : Type 0} → String → Map String V → Map String ℕ → Option ℕ
version_after slot writes versions = if contains slot writes then some 1 else lookup slot versions

module _ (M : Machine) where
  abbrev pub Frame : Type 0
  Frame = (ℕ → Map String ℕ) × (ℕ → Map String M.Bytes) × Map ℕ (ParallelTransaction M)

  -- What a commit does not write.
  abbrev pub frame : Engine M → Frame
  frame engine = (engine.reads, engine.writes, engine.active_transactions)

  commit_slots_versions :
      (contract slot : String) (writes : Map String M.Bytes) (db db' : M.Db) (engine : Engine M)
      → (commit_slots M contract writes db engine).0 ≡ ok db'
      → lookup slot (commit_slots M contract writes db engine).1.storage_versions
        ≡ version_after slot writes engine.storage_versions
  unfolding commit_slots
  commit_slots_versions contract slot [] db db' engine done = refl
  commit_slots_versions contract slot ((s, v) ∷ rest) db db' engine done =
      elim (Result-cases (M.write db (keyed_slot M contract s) v)) [
        | inr (e, q) ↦ ground (arith, q, done)
        | inl (next, q) ↦
            let later =
              commit_slots_versions contract slot rest next db'
                (slot_written M contract s v next engine) (ground (arith, q, done)) in
            rw (q, commit_slots)
              (later ∙ ground (arith, lookup-insert s slot 1 engine.storage_versions))
      ]

  write_version_ok :
      (contract : String) (r : Result M.Db String × Engine M)
      → (write_version M contract r).0 ≡ ok tt
      → (db : M.Db) × (r.0 ≡ ok db)
  write_version_ok contract (err e, engine) done = ground (arith, done)
  write_version_ok contract (ok db, engine) done = (db, refl)

  write_version-frame :
      (contract : String) (r : Result M.Db String × Engine M)
      → let engine' = (write_version M contract r).1 in
        (engine'.storage_versions ≡ r.1.storage_versions) × (frame engine' ≡ frame r.1)
  write_version-frame contract (err e, engine) = (refl, refl)
  write_version-frame contract (ok db, engine) =
      elim (Result-cases (M.write db (join "version:" contract) M.one_be_bytes)) [
        | inl (db', q) ↦ rw (q, write_version) (refl, refl)
        | inr (e, q) ↦ rw (q, write_version) (refl, refl)
      ]

  commit_slots-frame :
      (contract : String) (writes : Map String M.Bytes) (db : M.Db) (engine : Engine M)
      → frame (commit_slots M contract writes db engine).1 ≡ frame engine
  unfolding commit_slots
  commit_slots-frame contract [] db engine = refl
  commit_slots-frame contract ((s, v) ∷ rest) db engine =
      elim (Result-cases (M.write db (keyed_slot M contract s) v)) [
        | inr (e, q) ↦ rw (q, commit_slots) refl
        | inl (next, q) ↦
            rw (q, commit_slots)
              (commit_slots-frame contract rest next (slot_written M contract s v next engine))
      ]

  commit_writes-frame :
      (contract : String) (writes : Map String M.Bytes) (manager : Option M.Db) (engine : Engine M)
      → frame (commit_writes M contract writes manager engine).1 ≡ frame engine
  commit_writes-frame contract [] manager engine = refl
  commit_writes-frame contract (w ∷ ws) none engine = refl
  commit_writes-frame contract (w ∷ ws) (some db) engine =
      (write_version-frame contract
        (commit_slots M contract (w ∷ ws) db (with_contract M contract engine))).1
      ∙ commit_slots-frame contract (w ∷ ws) db (with_contract M contract engine)

  -- A commit leaves the cells and the active transactions alone.
  pub commit_transaction_changes-frame :
      (tx : ParallelTransaction M) (engine : Engine M)
      → frame (commit_transaction_changes M tx engine).1 ≡ frame engine
  unfolding commit_transaction_changes
  commit_transaction_changes-frame tx engine =
      commit_writes-frame tx.contract_address (engine.writes tx.write_set) engine.vm.storage_manager
        engine

  commit_writes_versions :
      (contract slot : String) (writes : Map String M.Bytes) (manager : Option M.Db)
      (engine : Engine M)
      → (commit_writes M contract writes manager engine).0 ≡ ok tt
      → lookup slot (commit_writes M contract writes manager engine).1.storage_versions
        ≡ version_after slot writes engine.storage_versions
  commit_writes_versions contract slot [] manager engine done = refl
  commit_writes_versions contract slot (w ∷ ws) none engine done = ground (arith, done)
  commit_writes_versions contract slot (w ∷ ws) (some db) engine done =
      let r = commit_slots M contract (w ∷ ws) db (with_contract M contract engine) in
      let (db', wrote) = write_version_ok contract r done in
      ap (λ vs. lookup slot vs) (write_version-frame contract r).0
      ∙ commit_slots_versions contract slot (w ∷ ws) db db' (with_contract M contract engine) wrote

  -- A commit that answers `Ok` leaves every slot of its write set at version 1, and the version of
  -- every other slot as it was.
  pub commit_transaction_changes_versions :
      (tx : ParallelTransaction M) (slot : String) (engine : Engine M)
      → (commit_transaction_changes M tx engine).0 ≡ ok tt
      → lookup slot (commit_transaction_changes M tx engine).1.storage_versions
        ≡ version_after slot (engine.writes tx.write_set) engine.storage_versions
  unfolding commit_transaction_changes
  commit_transaction_changes_versions tx slot engine done =
      commit_writes_versions tx.contract_address slot (engine.writes tx.write_set)
        engine.vm.storage_manager engine done
