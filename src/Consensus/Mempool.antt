-- ===== src/Consensus/Mempool.antt =====
-- The mempool: `pending_transactions` and the operations on it.
pub mod Removal
use slura_chain.Base.{ℕ, String, Bool, List, [], ◌∷◌, ◌++◌, string_eq, length}
use slura_chain.Base.Map.{Map, contains, insert, erase_all}
use slura_chain.Base.Text.{decimal, join}
use slura_chain.Consensus.Types.{TxRequest, Env, Manager}

-- `format!("{}:{}:{}:{}", from_op, receiver_op, value_tx, nonce_tx)`
unfoldable pub tx_hash_of : TxRequest → String
tx_hash_of tx =
    join tx.from_op (
      join ":" (join tx.receiver_op (join ":" (join tx.value_tx (join ":" (decimal tx.nonce_tx))))))

abbrev pub tx_hashes_of : List TxRequest → List String
tx_hashes_of [] = []
tx_hashes_of (tx ∷ txs) = tx_hash_of tx ∷ tx_hashes_of txs

module _ {E : Env} where
  unfoldable pub add_transaction_to_mempool : TxRequest → Manager E → Manager E
  add_transaction_to_mempool tx m = record m {
    pending_transactions = insert tx.hash tx m.pending_transactions;
    mempool_tx_sender = m.mempool_tx_sender ++ tx ∷ [];
  }

  unfoldable pub has_transaction_in_mempool : String → Manager E → Bool
  has_transaction_in_mempool tx_hash m = contains tx_hash m.pending_transactions

  unfoldable pub get_pending_transaction_count : Manager E → ℕ
  get_pending_transaction_count m = length m.pending_transactions

  -- `update_balance(&tx.from_op, 0)` comes first; no guard is alive there.
  unfoldable pub add_pending_transaction : TxRequest → Manager E → Manager E
  add_pending_transaction tx m = record m {
    balances = insert tx.from_op 0 m.balances;
    pending_transactions = insert (tx_hash_of tx) tx m.pending_transactions;
  }

  unfoldable pub remove_processed_transactions : List String → Manager E → Manager E
  remove_processed_transactions processed_hashes m = record m {
    pending_transactions = erase_all processed_hashes m.pending_transactions;
  }
