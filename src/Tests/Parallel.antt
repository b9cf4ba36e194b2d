-- ===== src/Tests/Parallel.antt =====
-- The parallel engine at a concrete batch.
use slura_chain.Base.{ℕ, ◌+◌, ◌≡◌, refl, String, true, none, some, List, [], ◌∷◌, string_eq, length}
use slura_chain.Base.Map.{Map, lookup}
use slura_chain.Base.Outcome.{ok}
use slura_chain.Parallel.Types.{Machine, ParallelTransaction, Engine}
use slura_chain.Parallel.Commit.{commit_transaction_changes, commit_slots}
use slura_chain.Parallel.Commit.Versions.{commit_transaction_changes_versions}
use slura_chain.Parallel.Batch.{Call, enroll, execute_parallel_transactions}
use slura_chain.Parallel.Rounds.{one_round, execute_parallel_transactions-one_round}

abbrev machine : Machine
machine = record {
  Value = ℕ;
  Rest = ℕ;
  Db = ℕ;
  Bytes = ℕ;
  execute_module = λ vm contract function args sender calldata. (ok 3, vm);
  scan_prefix = λ db prefix. ok (("storage:0xc:s", 1) ∷ []);
  write = λ db key bytes. ok (db + 1);
  starts_with = λ s prefix. true;
  trim_start_matches = λ s prefix. "s";
  storage_of = λ value. some (("s", 4) ∷ []);
  as_str = λ value. some "0x04";
  string_value = λ s. 9;
  skip_two = λ s. "04";
  hex_decode = λ s. some 4;
  hex_encode = λ bytes. "04";
  one_be_bytes = 1;
}

-- A transaction with the cells of its number.
abbrev transaction : ℕ → ParallelTransaction machine
transaction id = record {
  id = id;
  contract_address = "0xc";
  function_name = "f";
  args = [];
  sender = "alice";
  version = 0;
  read_set = id;
  write_set = id;
  calldata = none;
}

abbrev engine : (ℕ → Map String ℕ) → Engine machine
engine reads = record {
  storage_versions = ("s", 1) ∷ [];
  active_transactions = [];
  transaction_queue = [];
  vm = record { accounts = []; world_storage = []; storage_manager = some 0; rest = 0 };
  reads = reads;
  writes = λ cell. ("s", 4) ∷ [];
  next_cell = 2;
}

abbrev batch : List (Call machine)
batch = ("0xc::m", "f", [], "alice", none) ∷ ("0xc::m", "g", [], "bob", none) ∷ []

execute_parallel_transactions-one_round_example :
    let (txs, enrolled) = enroll machine (λ path. "0xc") 0 batch (engine (λ _. [])) in
    (execute_parallel_transactions machine (λ path. "0xc") batch (engine (λ _. []))
      ≡ one_round machine txs enrolled)
    × (length (execute_parallel_transactions machine (λ path. "0xc") batch (engine (λ _. []))).0
        ≡ 2)
execute_parallel_transactions-one_round_example =
    execute_parallel_transactions-one_round machine (λ path. "0xc") batch (engine (λ _. []))
      (λ _. refl)

commit_transaction_changes_versions_example :
    lookup "s"
      (commit_transaction_changes machine (transaction 1) (engine (λ _. []))).1.storage_versions
    ≡ some 1
unfolding commit_transaction_changes commit_slots
commit_transaction_changes_versions_example =
    commit_transaction_changes_versions machine (transaction 1) "s" (engine (λ _. [])) refl
