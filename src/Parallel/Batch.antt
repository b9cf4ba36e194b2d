-- ===== src/Parallel/Batch.antt =====
-- Validation of a batch, the retry loop, and the entry points.
use slura_chain.Base.{
  ℕ, zero, suc, ◌+◌, String, Bool, true, false, Option, none, some, List, [], ◌∷◌, ◌++◌, nat_eq,
  string_eq, leb, if◌then◌else◌,
}
use slura_chain.Base.Map.{Map, keys, lookup, insert}
use slura_chain.Base.Outcome.{Result, ok, err}
use slura_chain.Base.Text.{decimal, join}
use slura_chain.Parallel.Types.{Machine, ParallelTransaction, Engine}
use slura_chain.Parallel.Speculate.{set_cell, execute_speculative_transaction}
use slura_chain.Parallel.Commit.{validate_transaction_conflicts, commit_transaction_changes}

-- `transaction_ids.sort()`
abbrev pub insert_sorted : ℕ → List ℕ → List ℕ
insert_sorted n [] = n ∷ []
insert_sorted n (k ∷ ks) =
    let later = insert_sorted n ks in if leb n k then n ∷ k ∷ ks else k ∷ later

abbrev pub sort : List ℕ → List ℕ
sort [] = []
sort (n ∷ ns) = insert_sorted n (sort ns)

module _ (M : Machine) where
  open M use {Value, Rest, Db, Bytes}

  abbrev pub Results : Type 0
  Results = Map ℕ (Result Value String)

  -- The transactions take the lock on the virtual machine in the order of the batch.
  unfoldable pub execute_all :
      List (ParallelTransaction M) → Results × Engine M → Results × Engine M
  unfolding execute_speculative_transaction
  execute_all [] state = state
  execute_all (tx ∷ txs) (results, engine) =
      let (result, engine') = execute_speculative_transaction M tx engine in
      execute_all txs (insert tx.id result results, engine')

  abbrev pub validate_and_commit : ParallelTransaction M → Engine M → Bool × Engine M
  validate_and_commit tx engine =
      if validate_transaction_conflicts M tx engine
      then (true, (commit_transaction_changes M tx engine).1)
      else (false, engine)

  unfoldable pub validate_ids : List ℕ → Engine M → List Bool × Engine M
  validate_ids [] engine = ([], engine)
  validate_ids (id ∷ ids) engine = elim (lookup id engine.active_transactions) [
    | none ↦ validate_ids ids engine
    | some tx ↦
        let (valid, engine') = validate_and_commit tx engine in
        let (flags, engine'') = validate_ids ids engine' in (valid ∷ flags, engine'')
  ]

  unfoldable pub validate_and_commit_batch : Engine M → List Bool × Engine M
  unfolding validate_ids
  validate_and_commit_batch engine = validate_ids (sort (keys engine.active_transactions)) engine

  -- The clone has cells in common with the transaction that it is made of.
  abbrev pub cleared : ParallelTransaction M → Engine M → ParallelTransaction M × Engine M
  cleared tx engine = (
    record tx { version = tx.version + 1 },
    record engine {
      reads = set_cell tx.read_set [] engine.reads;
      writes = set_cell tx.write_set [] engine.writes;
    },
  )

  -- The results are those of the sorted active transactions, and are read by position.
  unfoldable pub collect_conflicted_transactions_non_recursive :
      List Bool → List (ParallelTransaction M) → Engine M → List (ParallelTransaction M) × Engine M
  collect_conflicted_transactions_non_recursive [] txs engine = ([], engine)
  collect_conflicted_transactions_non_recursive (valid ∷ flags) [] engine = ([], engine)
  collect_conflicted_transactions_non_recursive (true ∷ flags) (tx ∷ txs) engine =
      collect_conflicted_transactions_non_recursive flags txs engine
  collect_conflicted_transactions_non_recursive (false ∷ flags) (tx ∷ txs) engine =
      let (retry_tx, engine') = cleared tx engine in
      let (conflicted, engine'') =
        collect_conflicted_transactions_non_recursive flags txs engine' in
      (retry_tx ∷ conflicted, engine'')

  unfoldable pub final_results : List (ParallelTransaction M) → Results → List (Result Value String)
  final_results [] results = []
  final_results (tx ∷ txs) results =
      elim (lookup tx.id results) [
        | none ↦ err (join "TX " (join (decimal tx.id) " manquante après retry"))
        | some result ↦ result
      ]
      ∷ final_results txs results

  -- The `loop`, with the number of retries that are left.
  unfoldable pub batch_rounds :
      ℕ → List (ParallelTransaction M) → Engine M → List (Result Value String) × Engine M
  unfolding execute_all validate_and_commit_batch collect_conflicted_transactions_non_recursive
      final_results
  batch_rounds zero txs engine =
      let (results, executed) = execute_all txs ([], engine) in
      let (flags, committed) = validate_and_commit_batch executed in
      let (conflicted, cleared_engine) =
        collect_conflicted_transactions_non_recursive flags txs committed in
      (final_results txs results, cleared_engine)
  batch_rounds (suc retries) txs engine =
      let (results, executed) = execute_all txs ([], engine) in
      let (flags, committed) = validate_and_commit_batch executed in
      let (conflicted, cleared_engine) =
        collect_conflicted_transactions_non_recursive flags txs committed in
      elim conflicted [
        | [] ↦ (final_results txs results, cleared_engine)
        | tx ∷ rest ↦ batch_rounds retries (tx ∷ rest) cleared_engine
      ]

  abbrev pub max_retries : ℕ
  max_retries = 3

  unfoldable pub execute_parallel_batch :
      List (ParallelTransaction M) → Engine M → List (Result Value String) × Engine M
  unfolding batch_rounds
  execute_parallel_batch txs engine = batch_rounds max_retries txs engine

  unfoldable pub submit_transaction :
      ParallelTransaction M → Engine M → Result Unit String × Engine M
  submit_transaction tx engine = (
    ok tt,
    record engine {
      active_transactions = insert tx.id tx engine.active_transactions;
      transaction_queue = engine.transaction_queue ++ tx ∷ [];
    },
  )

  -- A call: module path, function, arguments, sender and calldata.
  abbrev pub Call : Type 0
  Call = String × String × List Value × String × Option Bytes

  -- The transaction of one call, whose id is its place in the batch.
  abbrev pub transaction_of : (String → String) → ℕ → Call → ℕ → ParallelTransaction M
  transaction_of extract_address i (module_path, function_name, args, sender, calldata) cell =
      record {
        id = i;
        contract_address = extract_address module_path;
        function_name = function_name;
        args = args;
        sender = sender;
        version = 0;
        read_set = cell;
        write_set = cell;
        calldata = calldata;
      }

  -- It is registered as active, with new cells that are empty.
  abbrev pub registered : ParallelTransaction M → Engine M → Engine M
  registered tx engine = record engine {
    active_transactions = insert tx.id tx engine.active_transactions;
    reads = set_cell engine.next_cell [] engine.reads;
    writes = set_cell engine.next_cell [] engine.writes;
    next_cell = engine.next_cell + 1;
  }

  -- `extract_address` is a function of the virtual machine.
  unfoldable pub enroll :
      (String → String) → ℕ → List Call → Engine M → List (ParallelTransaction M) × Engine M
  enroll extract_address i [] engine = ([], engine)
  enroll extract_address i (call ∷ calls) engine =
      let tx = transaction_of extract_address i call engine.next_cell in
      let (txs, engine') = enroll extract_address (i + 1) calls (registered tx engine) in
      (tx ∷ txs, engine')

  -- The branch with an engine.
  unfoldable pub execute_parallel_transactions :
      (String → String) → List Call → Engine M → List (Result Value String) × Engine M
  unfolding enroll execute_parallel_batch
  execute_parallel_transactions extract_address calls engine =
      let (txs, engine') = enroll extract_address 0 calls engine in
      execute_parallel_batch txs engine'
