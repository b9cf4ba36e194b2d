-- ===== src/Consensus/Mempool/Removal.antt =====
-- Which transactions leave the mempool with a block.
use slura_chain.Base.{
  ◌≡◌, refl, String, Bool, none, List, [], ◌∷◌, ◌==◌, string_eq, if◌then◌else◌, any, arith,
  Option-cases, inl, inr,
}
use slura_chain.Base.Map.{
  Entries, lookup-Entries, insert-Entries, Map, lookup, values, erase_all, lookup-erase_all,
  empty_of_lookup, any_value_of_lookup,
}
use slura_chain.Consensus.Types.{TxRequest, Env, Manager}
use slura_chain.Consensus.Mempool.{tx_hash_of, tx_hashes_of, add_pending_transaction}

-- Some transaction of the mempool is written `key` by `tx_hash_of`.
abbrev pub is_processed : String → Map String TxRequest → Bool
is_processed key pending = any (λ tx. tx_hash_of tx == key) (values pending)

any-tx_hashes_of :
    (key : String) (txs : List TxRequest)
    → any (λ k. k == key) (tx_hashes_of txs) ≡ any (λ tx. tx_hash_of tx == key) txs
any-tx_hashes_of key [] = refl
any-tx_hashes_of key (tx ∷ txs) = ground (arith, any-tx_hashes_of key txs)

-- The mempool after a block of all its transactions: an entry goes exactly when its key is the
-- written form of some transaction of the block.
pub lookup-processed :
    (key : String) (pending : Map String TxRequest)
    → lookup key (erase_all (tx_hashes_of (values pending)) pending)
      ≡ (if is_processed key pending then none else lookup key pending)
lookup-processed key pending = simp (lookup-erase_all, any-tx_hashes_of)

-- Every transaction stands under its written form, as `add_pending_transaction` stores it.
abbrev pub IsKeyed : Map String TxRequest → Type 0
IsKeyed pending = Entries (λ key tx. tx_hash_of tx ≡ key) pending

pub add_pending_transaction-IsKeyed :
    {E : Env} (tx : TxRequest) (m : Manager E)
    → IsKeyed m.pending_transactions
    → IsKeyed (add_pending_transaction tx m).pending_transactions
unfolding add_pending_transaction
add_pending_transaction-IsKeyed tx m keyed =
    insert-Entries (λ key t. tx_hash_of t ≡ key) (tx_hash_of tx) tx m.pending_transactions refl
      keyed

-- A mempool in which every transaction stands under its written form is empty after a block of
-- all its transactions.
pub processed_empties :
    (pending : Map String TxRequest)
    → IsKeyed pending
    → erase_all (tx_hashes_of (values pending)) pending ≡ []
processed_empties pending keyed = empty_of_lookup _ gone
  where
    gone : (key : String) → lookup key (erase_all (tx_hashes_of (values pending)) pending) ≡ none
    gone key = elim (Option-cases (lookup key pending)) [
      | inl e ↦ rw lookup-processed (ground (arith, e))
      | inr (tx, e) ↦ rw lookup-processed (
          ground (
            arith,
            any_value_of_lookup (λ t. tx_hash_of t == key) key tx pending e
                ((string_eq.beq_iff _ _).1
                  (lookup-Entries (λ key t. tx_hash_of t ≡ key) key tx pending keyed e)),
          ))
    ]
