-- ===== src/Consensus/Produce/Processed.antt =====
-- Which transactions a block takes out of the mempool, and which it leaves there.
use slura_chain.Base.{
  ℕ, ◌*◌, ◌<◌, ◌≡◌, ◌∙◌, inl, inr, Bool, false, some, [], ◌∷◌, arith, String, length, Member, last,
  ◌==◌, nat_eq, string_eq, Bool-cases,
}
use slura_chain.Base.Map.{Map, lookup, erase_all, values, lookup-insert_self}
use slura_chain.Base.Word.{modulus}
use slura_chain.Base.Outcome.{ok}
use slura_chain.Bridge.{Rpc}
use slura_chain.Consensus.Types.{TxRequest, BlockData, block_channel_size, Env, Manager}
use slura_chain.Consensus.Mempool.{tx_hashes_of, add_transaction_to_mempool}
use slura_chain.Consensus.Mempool.Removal.{
  is_processed, lookup-processed, IsKeyed, processed_empties,
}
use slura_chain.Consensus.Chain.{chain_document_of, digest}
use slura_chain.Consensus.Produce.{produce_lurosonie_block_with_consensus}
use slura_chain.Consensus.Produce.Outcome.{gate_power, new_block, produce_open}

lookup-Member :
    (key : String) (tx : TxRequest) (txs : Map String TxRequest)
    → lookup key txs ≡ some tx
    → Member tx (values txs)
lookup-Member key tx [] e = cc e
lookup-Member key tx ((k, t) ∷ txs) e = elim (Bool-cases (k == key)) [
  | inl same ↦ inl (ground (arith, e, same))
  | inr other ↦ inr (lookup-Member key tx txs (ground (arith, e, other)))
]

module _ (E : Env) (rpc : Rpc) (now number : ℕ) (producer : String) (is_system : Bool)
    (btc_height : ℕ) (hash encoded : String) where
  abbrev pub made : Manager E → BlockData
  made m = new_block E rpc now number producer is_system btc_height m

  -- A transaction that `add_transaction_to_mempool` stored under its `hash`, where that is the
  -- written form of no transaction of the mempool, is in the block that is made next and stays in
  -- the mempool when the call succeeds, so that the block after it has it again: with power at the
  -- gate that is twice below 2^64, a block that can be hashed and encoded, and fewer than 100
  -- blocks sent.
  pub produce-add_transaction_to_mempool :
      (tx : TxRequest) (before : Manager E)
      → is_processed tx.hash (add_transaction_to_mempool tx before).pending_transactions ≡ false
      → 0 < gate_power E before
      → 2 * gate_power E before < modulus
      → digest E (chain_document_of (made (add_transaction_to_mempool tx before))) ≡ some hash
      → E.encode_block (made (add_transaction_to_mempool tx before)) ≡ some encoded
      → length before.block_sender < block_channel_size
      → let m = add_transaction_to_mempool tx before in
        let (r, m') =
          produce_lurosonie_block_with_consensus E rpc now number producer is_system btc_height m in
        (r ≡ ok tt) × Member tx (made m).transactions × Member tx (made m').transactions
  unfolding add_transaction_to_mempool
  produce-add_transaction_to_mempool tx before other opened fits hashed coded room =
      let m = add_transaction_to_mempool tx before in
      let (answer, chain, taken, last, sent, left) =
        produce_open E rpc now number producer is_system btc_height m hash encoded opened fits
          hashed coded room in
      let found : lookup tx.hash m.pending_transactions ≡ some tx =
        lookup-insert_self tx.hash tx before.pending_transactions in
      let kept : lookup tx.hash
            (erase_all (tx_hashes_of (values m.pending_transactions)) m.pending_transactions)
          ≡ some tx =
        lookup-processed tx.hash m.pending_transactions ∙ rw other found in
      (
        answer,
        lookup-Member tx.hash tx m.pending_transactions found,
        rw left (lookup-Member tx.hash tx _ kept),
      )

  -- Where every transaction stands under its written form, the mempool is empty after a call that
  -- succeeds: with power at the gate that is twice below 2^64, a block that can be hashed and
  -- encoded, and fewer than 100 blocks sent.
  pub produce_empties :
      (m : Manager E)
      → IsKeyed m.pending_transactions
      → 0 < gate_power E m
      → 2 * gate_power E m < modulus
      → digest E (chain_document_of (made m)) ≡ some hash
      → E.encode_block (made m) ≡ some encoded
      → length m.block_sender < block_channel_size
      → let (r, m') =
          produce_lurosonie_block_with_consensus E rpc now number producer is_system btc_height m in
        (r ≡ ok tt) × (m'.pending_transactions ≡ [])
  produce_empties m keyed opened fits hashed coded room =
      let (answer, chain, taken, last, sent, left) =
        produce_open E rpc now number producer is_system btc_height m hash encoded opened fits
          hashed coded room in
      (answer, left ∙ processed_empties m.pending_transactions keyed)
