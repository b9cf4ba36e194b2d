-- ===== src/Parallel/Rounds.antt =====
-- Nothing ever writes to a read set, so no batch is retried.
use slura_chain.Base.{
  ℕ, zero, suc, ◌+◌, ◌≡◌, refl, ap, ◌∙◌, String, Bool, true, false, some, List, [], ◌∷◌, ◌==◌,
  nat_eq, length, arith, All, Option-cases, Bool-cases, inl, inr,
}
use slura_chain.Base.Map.{Map, keys, lookup, insert}
use slura_chain.Base.Outcome.{Result, ok, err}
use slura_chain.Parallel.Types.{Machine, ParallelTransaction, Engine}
use slura_chain.Parallel.Commit.{
  reads_current, validate_transaction_conflicts, commit_transaction_changes,
}
use slura_chain.Parallel.Commit.Versions.{Frame, commit_transaction_changes-frame}
use slura_chain.Parallel.Speculate.{
  set_cell, reload_contract, with_writes, execute_speculative_transaction,
}
use slura_chain.Parallel.Batch.{
  sort, Results, execute_all, validate_ids, validate_and_commit_batch,
  collect_conflicted_transactions_non_recursive, final_results, batch_rounds,
  execute_parallel_batch, Call, transaction_of, registered, enroll, execute_parallel_transactions,
}

module _ (M : Machine) where
  -- No read set has an entry.
  abbrev pub IsUnread : Engine M → Type 0
  IsUnread engine = (a : ℕ) → engine.reads a ≡ []

  reads-with_writes :
      (tx : ParallelTransaction M) (r : Result M.Value String) (engine : Engine M)
      → (with_writes M tx r engine).reads ≡ engine.reads
  reads-with_writes tx (err e) engine = refl
  reads-with_writes tx (ok result) engine = elim (Option-cases (M.storage_of result)) [
    | inl missing ↦ rw (missing, with_writes) refl
    | inr (written, q) ↦ rw (q, with_writes) refl
  ]

  reads-execute_all :
      (txs : List (ParallelTransaction M)) (results : Results M) (engine : Engine M)
      → (execute_all M txs (results, engine)).1.reads ≡ engine.reads
  unfolding execute_all execute_speculative_transaction
  reads-execute_all [] results engine = refl
  reads-execute_all (tx ∷ txs) results engine =
      let vm = reload_contract M tx.contract_address engine.vm in
      let reply =
        M.execute_module vm tx.contract_address tx.function_name tx.args (some tx.sender)
          tx.calldata in
      let engine' = with_writes M tx reply.0 (record engine { vm = reply.1 }) in
      reads-execute_all txs (insert tx.id reply.0 results) engine'
      ∙ reads-with_writes tx reply.0 (record engine { vm = reply.1 })

  validate_unread :
      (tx : ParallelTransaction M) (engine : Engine M)
      → IsUnread engine
      → validate_transaction_conflicts M tx engine ≡ true
  unfolding validate_transaction_conflicts reads_current
  validate_unread tx engine unread = rw (unread tx.read_set) refl

  validate_ids_unread :
      (ids : List ℕ) (engine : Engine M)
      → IsUnread engine
      → All (λ flag. flag ≡ true) (validate_ids M ids engine).0
        × ((validate_ids M ids engine).1.reads ≡ engine.reads)
  unfolding validate_ids
  validate_ids_unread [] engine unread = (tt, refl)
  validate_ids_unread (id ∷ ids) engine unread =
      elim (Option-cases (lookup id engine.active_transactions)) [
        | inl missing ↦ rw (missing, validate_ids) (validate_ids_unread ids engine unread)
        | inr (tx, q) ↦
            let engine' = (commit_transaction_changes M tx engine).1 in
            let same : engine'.reads ≡ engine.reads =
              ap (λ (f : Frame M). f.0) (commit_transaction_changes-frame M tx engine) in
            let (flags, rest) =
              validate_ids_unread ids engine'
                (λ a. ap (λ (f : ℕ → Map String ℕ). f a) same ∙ unread a) in
            rw (q, validate_ids)
              (rw (validate_unread tx engine unread) ((refl, flags), rest ∙ same))
      ]

  collect_valid :
      (flags : List Bool) (txs : List (ParallelTransaction M)) (engine : Engine M)
      → All (λ flag. flag ≡ true) flags
      → collect_conflicted_transactions_non_recursive M flags txs engine ≡ ([], engine)
  unfolding collect_conflicted_transactions_non_recursive
  collect_valid [] txs engine valid = refl
  collect_valid (flag ∷ flags) [] engine valid = refl
  collect_valid (true ∷ flags) (tx ∷ txs) engine valid = collect_valid flags txs engine valid.1
  collect_valid (false ∷ flags) (tx ∷ txs) engine valid = ground (arith, valid.0)

  length-final_results :
      (txs : List (ParallelTransaction M)) (results : Results M)
      → length (final_results M txs results) ≡ length txs
  unfolding final_results
  length-final_results [] results = refl
  length-final_results (tx ∷ txs) results = ap (λ n. suc n) (length-final_results txs results)

  -- The end of a single round of the loop.
  abbrev pub one_round :
      List (ParallelTransaction M) → Engine M → List (Result M.Value String) × Engine M
  one_round txs engine =
      let (results, executed) = execute_all M txs ([], engine) in
      (final_results M txs results, (validate_and_commit_batch M executed).1)

  all_commit :
      (txs : List (ParallelTransaction M)) (engine : Engine M)
      → IsUnread engine
      → let (flags, committed) = validate_and_commit_batch M (execute_all M txs ([], engine)).1 in
        collect_conflicted_transactions_non_recursive M flags txs committed ≡ ([], committed)
  unfolding validate_and_commit_batch
  all_commit txs engine unread =
      let executed = (execute_all M txs ([], engine)).1 in
      let unread' : IsUnread executed =
        λ a. ap (λ (f : ℕ → Map String ℕ). f a) (reads-execute_all txs [] engine) ∙ unread a in
      let (valid, same) =
        validate_ids_unread (sort (keys executed.active_transactions)) executed unread' in
      let (flags, committed) = validate_ids M (sort (keys executed.active_transactions)) executed in
      collect_valid flags txs committed valid

  -- While no read set has an entry, a batch ends with its first round, however many retries are
  -- left: each transaction runs once, and every active transaction is committed.
  pub batch_rounds-one_round :
      (retries : ℕ) (txs : List (ParallelTransaction M)) (engine : Engine M)
      → IsUnread engine
      → batch_rounds M retries txs engine ≡ one_round txs engine
  unfolding batch_rounds
  batch_rounds-one_round zero txs engine unread =
      ap
        (λ (c : List (ParallelTransaction M) × Engine M).
          (final_results M txs (execute_all M txs ([], engine)).0, c.1))
        (all_commit txs engine unread)
  batch_rounds-one_round (suc left) txs engine unread =
      rw (all_commit txs engine unread, batch_rounds)
        (ap
          (λ (c : List (ParallelTransaction M) × Engine M).
            (final_results M txs (execute_all M txs ([], engine)).0, c.1))
          (all_commit txs engine unread))

  empty_cell :
      (cell a : ℕ) (reads : ℕ → Map String ℕ) → reads a ≡ [] → set_cell cell [] reads a ≡ []
  empty_cell cell a reads unread = elim (Bool-cases (cell == a)) [
    | inl here ↦ rw here refl
    | inr there ↦ rw there unread
  ]

  IsUnread-enroll :
      (extract_address : String → String) (i : ℕ) (calls : List (Call M)) (engine : Engine M)
      → IsUnread engine
      → IsUnread (enroll M extract_address i calls engine).1
        × (length (enroll M extract_address i calls engine).0 ≡ length calls)
  unfolding enroll
  IsUnread-enroll extract_address i [] engine unread = (unread, refl)
  IsUnread-enroll extract_address i (call ∷ calls) engine unread =
      let tx = transaction_of M extract_address i call engine.next_cell in
      let (unread', as_many) =
        IsUnread-enroll extract_address (i + 1) calls (registered M tx engine)
          (λ a. empty_cell engine.next_cell a engine.reads (unread a)) in
      (unread', ap (λ n. suc n) as_many)

  -- From an engine whose read sets are all empty, a batch of calls is one round over the
  -- transactions that are made of them: there is one result for each call, whatever the calls write,
  -- and no call is retried.
  pub execute_parallel_transactions-one_round :
      (extract_address : String → String) (calls : List (Call M)) (engine : Engine M)
      → IsUnread engine
      → let (txs, enrolled) = enroll M extract_address 0 calls engine in
        (execute_parallel_transactions M extract_address calls engine ≡ one_round txs enrolled)
        × (length (execute_parallel_transactions M extract_address calls engine).0 ≡ length calls)
  unfolding execute_parallel_transactions execute_parallel_batch
  execute_parallel_transactions-one_round extract_address calls engine unread =
      let (txs, enrolled) = enroll M extract_address 0 calls engine in
      let (unread', as_many) = IsUnread-enroll extract_address 0 calls engine unread in
      let round = batch_rounds-one_round 3 txs enrolled unread' in
      (
        round,
        ap (λ (r : List (Result M.Value String) × Engine M). length r.0) round
            ∙ length-final_results txs (execute_all M txs ([], enrolled)).0
            ∙ as_many,
      )
