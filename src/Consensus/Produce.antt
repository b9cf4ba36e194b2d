-- ===== src/Consensus/Produce.antt =====
-- Block production: `produce_lurosonie_block_with_consensus` and `validate_and_add_transaction`.
-- What the Bitcoin node answers during a call is the argument `rpc`, and the time is `now`.
pub mod Block
pub mod Outcome
pub mod Processed
use Prim.Native.Nat.{◌%◌}
use slura_chain.Base.{ℕ, ◌+◌, String, Bool, false, Option, none, some, List, [], ltb, if◌then◌else◌}
use slura_chain.Base.Map.{Map, values}
use slura_chain.Base.Word.{wrapping_add}
use slura_chain.Base.Outcome.{Result, ok, err, ok?}
use slura_chain.Base.Text.{decimal, join}
use slura_chain.Bridge.{BitcoinBridge, BitcoinBlockAnchor, Rpc, get_block_anchor}
use slura_chain.Consensus.Types.{
  TxRequest, TimestampRelease, BlockData, Error, insufficient_power, may_not_produce, Env, Manager,
}
use slura_chain.Consensus.Power.{
  calculate_relay_powers, calculate_stake_power, get_consensus_threshold,
}
use slura_chain.Consensus.Leader.{can_validator_produce_block}
use slura_chain.Consensus.Mempool.{
  tx_hashes_of, add_pending_transaction, remove_processed_transactions,
}
use slura_chain.Consensus.Chain.{add_lurosonie_block_to_chain, get_block_height}
use slura_chain.Consensus.Contract.{lurosonie_bft_consensus}

abbrev pub block_log : ℕ → String → ℕ → String
block_log block_number producer btc_height = join "Bloc #" (
    join (decimal block_number) (
      join " produit avec consensus BFT (producer: "
        (join producer (join ", BTC #" (join (decimal btc_height) ")")))))

abbrev pub anchor_of : Option BitcoinBridge → Rpc → ℕ → Option BitcoinBlockAnchor
anchor_of none rpc btc_height = none
anchor_of (some bridge) rpc btc_height = ok? (get_block_anchor rpc btc_height)

module _ (E : Env) where
  -- The block that is made of the mempool and of the manager, once the relay power is known.
  abbrev pub block_of : Rpc → ℕ → ℕ → String → Bool → ℕ → ℕ → Manager E → BlockData
  block_of rpc now block_number producer is_system_block btc_height relay_power m = record {
    block = record {
      timestamp = now;
      log = block_log block_number producer btc_height;
      block_number = block_number;
      vyfties_id = producer;
    };
    transactions = values m.pending_transactions;
    validator = producer;
    contract_states = [];
    execution_results = [];
    relay_power = relay_power;
    delegated_stake = 0;
    is_system_block = is_system_block;
    bitcoin_anchor = anchor_of m.btc_bridge rpc btc_height;
    parent_slura_hash = m.last_block_hash;
  }

  -- The mempool is emptied of the block's transactions only if the block was added.
  abbrev pub finish : List String → Result Unit Error × Manager E → Result Unit Error × Manager E
  finish processed (err e, m) = (err e, m)
  finish processed (ok done, m) = (ok tt, remove_processed_transactions processed m)

  unfoldable pub produce_lurosonie_block_with_consensus :
      Rpc → ℕ → ℕ → String → Bool → ℕ → Manager E → Result Unit Error × Manager E
  produce_lurosonie_block_with_consensus rpc now block_number producer is_system_block btc_height
        m =
      let processed_hashes = tx_hashes_of (values m.pending_transactions) in
      let (validators, relay_power) = calculate_relay_powers m.delegations m.relay_validators in
      let powered : Manager E = record m { relay_validators = validators } in
      let total_power = wrapping_add relay_power (calculate_stake_power validators) in
      let threshold = get_consensus_threshold validators in
      if ltb total_power threshold
      then (err (insufficient_power block_number total_power threshold), powered)
      else finish processed_hashes (
          add_lurosonie_block_to_chain E
            (block_of rpc now block_number producer is_system_block btc_height relay_power powered)
            powered)

  abbrev pub check_after : ℕ → Result Unit Error × Manager E → Result Unit Error × Manager E
  check_after block_number (err e, m) = (err e, m)
  check_after block_number (ok done, m) = lurosonie_bft_consensus E block_number m

  unfoldable pub validate_and_add_transaction :
      Rpc → ℕ → TxRequest → String → Manager E → Result Unit Error × Manager E
  unfolding produce_lurosonie_block_with_consensus
  validate_and_add_transaction rpc now tx validator_addr m =
      let added = add_pending_transaction tx m in
      let block_height = wrapping_add (get_block_height E added) 1 in
      if can_validator_produce_block m.min_relay_stake m.relay_validators validator_addr
      then check_after block_height
          (produce_lurosonie_block_with_consensus rpc now block_height validator_addr false 0 added)
      else (err (may_not_produce validator_addr), m)
