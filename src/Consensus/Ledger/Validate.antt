-- ===== src/Consensus/Ledger/Validate.antt =====
-- `validate_transaction`: its answer, and when it never answers.
use slura_chain.Base.{ℕ, ◌≡◌, String, none, some, leb, string_eq, Option-cases, inl, inr}
use slura_chain.Base.Map.{Map, lookup}
use slura_chain.Base.Lock.{RwLock, RwLockLaws}
use slura_chain.Consensus.Types.{TxRequest}
use slura_chain.Consensus.Ledger.{value_of, validate_transaction}

module _ (L : RwLock) (laws : RwLockLaws L) (tx : TxRequest) (balances : Map String ℕ) where
  -- For a sender with an entry, the answer is whether the balance covers the value, and no balance
  -- changes. For a sender without an entry, the call waits for ever: it asks for the write lock
  -- while its own read guard is alive.
  pub validate_transaction_outcome :
      validate_transaction L tx balances ≡ elim (lookup tx.from_op balances) [
        | some balance ↦ some (leb (value_of tx) balance, balances)
        | none ↦ none
      ]
  unfolding validate_transaction
  validate_transaction_outcome = elim (Option-cases (lookup tx.from_op balances)) [
    | inl unknown ↦ rw (laws.read_unlocked, unknown, laws.write_read_held)
    | inr (balance, known) ↦ rw (laws.read_unlocked, known)
  ]
