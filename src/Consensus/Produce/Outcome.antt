-- ===== src/Consensus/Produce/Outcome.antt =====
-- What `produce_lurosonie_block_with_consensus` does, on each of its ends.
use slura_chain.Base.{
  ℕ, ◌*◌, ◌<◌, ◌≡◌, refl, ◌∙◌, String, Bool, true, false, some, [], ◌∷◌, ◌++◌, nat_eq, string_eq,
  ltb, arith, length, ◌≤◌,
}
use slura_chain.Base.Map.{Map, values, erase_all}
use slura_chain.Base.Word.{modulus, wrapping_add}
use slura_chain.Base.Outcome.{ok, err}
use slura_chain.Bridge.{Rpc}
use slura_chain.Consensus.Types.{
  BlockData, RelayValidator, insufficient_power, waiting, block_channel_size, Env, Manager,
}
use slura_chain.Consensus.Power.{
  calculate_relay_powers, calculate_stake_power, get_consensus_threshold,
}
use slura_chain.Consensus.Power.Gate.{power_sum, power_gate-closed}
use slura_chain.Consensus.Mempool.{tx_hashes_of, remove_processed_transactions}
use slura_chain.Consensus.Chain.{
  chain_document_of, digest, add_hashed, add_lurosonie_block_to_chain,
}
use slura_chain.Consensus.Produce.{block_of, finish, produce_lurosonie_block_with_consensus}

module _ (E : Env) where
  -- The manager with the powers of its validators computed anew.
  abbrev pub powered : Manager E → Manager E
  powered m = record m {
    relay_validators = (calculate_relay_powers m.delegations m.relay_validators).0;
  }

  -- The powers that the gate reads, summed.
  abbrev pub gate_power : Manager E → ℕ
  gate_power m = power_sum (calculate_relay_powers m.delegations m.relay_validators).0

  abbrev pub new_block : Rpc → ℕ → ℕ → String → Bool → ℕ → Manager E → BlockData
  new_block rpc now number producer is_system btc_height m =
      block_of E rpc now number producer is_system btc_height
        (calculate_relay_powers m.delegations m.relay_validators).1 (powered m)

  module _ (rpc : Rpc) (now number : ℕ) (producer : String) (is_system : Bool) (btc_height : ℕ)
      (m : Manager E) where
    gate_closed :
        gate_power m ≡ 0
        → (total threshold : ℕ) × (produce_lurosonie_block_with_consensus E rpc now number producer
              is_system btc_height m
            ≡ (err (insufficient_power number total threshold), powered m))
    unfolding produce_lurosonie_block_with_consensus
    gate_closed closed =
        let refreshed : Map String RelayValidator =
          (calculate_relay_powers m.delegations m.relay_validators).0 in
        let total : ℕ =
          wrapping_add (calculate_relay_powers m.delegations m.relay_validators).1
            (calculate_stake_power refreshed) in
        let below : ltb total (get_consensus_threshold refreshed) ≡ true =
          power_gate-closed m.delegations m.relay_validators (omega arith)
          ∙ ground (arith, closed) in
        (total, get_consensus_threshold refreshed, rw below)

    gate_open :
        0 < gate_power m
        → 2 * gate_power m < modulus
        → produce_lurosonie_block_with_consensus E rpc now number producer is_system btc_height m
          ≡ finish E (tx_hashes_of (values m.pending_transactions)) (
              add_lurosonie_block_to_chain E
                (new_block rpc now number producer is_system btc_height m)
                (powered m))
    unfolding produce_lurosonie_block_with_consensus
    gate_open opened fits =
        let refreshed : Map String RelayValidator =
          (calculate_relay_powers m.delegations m.relay_validators).0 in
        let above : ltb
              (wrapping_add (calculate_relay_powers m.delegations m.relay_validators).1
                (calculate_stake_power refreshed))
              (get_consensus_threshold refreshed)
            ≡ false =
          power_gate-closed m.delegations m.relay_validators fits ∙ ground (arith, opened) in
        rw above

    -- With no power among the refreshed validators the call fails with the error of insufficient
    -- power, and only the powers of the validators have changed.
    pub produce_closed :
        gate_power m ≡ 0
        → (total threshold : ℕ) × (produce_lurosonie_block_with_consensus E rpc now number producer
              is_system btc_height m
            ≡ (err (insufficient_power number total threshold), powered m))
    produce_closed closed = gate_closed closed

    -- With any power at all, however small, that is twice below 2^64, with a block that can be
    -- hashed and encoded, and while fewer than 100 blocks have been sent, the call succeeds: the block of the whole mempool is the new end of the
    -- chain, its hash is the last one, it is sent on, and its transactions' written forms leave the
    -- mempool.
    pub produce_open :
        (hash encoded : String)
        → 0 < gate_power m
        → 2 * gate_power m < modulus
        → digest E (chain_document_of (new_block rpc now number producer is_system btc_height m))
          ≡ some hash
        → E.encode_block (new_block rpc now number producer is_system btc_height m) ≡ some encoded
        → length m.block_sender < block_channel_size
        → let b = new_block rpc now number producer is_system btc_height m in
          let (r, m') =
            produce_lurosonie_block_with_consensus E rpc now number producer is_system btc_height
              m in
          (r ≡ ok tt)
          × (m'.slurachain_data ≡ m.slurachain_data ++ b ∷ [])
          × (b.transactions ≡ values m.pending_transactions)
          × (m'.last_block_hash ≡ some hash)
          × (m'.block_sender ≡ m.block_sender ++ b.block ∷ [])
          × (m'.pending_transactions
              ≡ erase_all (tx_hashes_of (values m.pending_transactions)) m.pending_transactions)
    unfolding add_lurosonie_block_to_chain remove_processed_transactions
    produce_open hash encoded opened fits hashed coded room =
        let sent : ltb (length m.block_sender) block_channel_size ≡ true = ground arith in
        rw (gate_open opened fits) (
          rw (hashed, coded, add_lurosonie_block_to_chain, add_hashed, sent)
            (refl, refl, refl, refl, refl, refl))

    -- With any power at all that is twice below 2^64, with a block that can be hashed and encoded,
    -- and once 100 blocks have been sent, the call never answers: the block is the new end of the
    -- chain and its hash is the last one, but it is not sent, and the mempool is as it was.
    pub produce_full :
        (hash encoded : String)
        → 0 < gate_power m
        → 2 * gate_power m < modulus
        → digest E (chain_document_of (new_block rpc now number producer is_system btc_height m))
          ≡ some hash
        → E.encode_block (new_block rpc now number producer is_system btc_height m) ≡ some encoded
        → block_channel_size ≤ length m.block_sender
        → let b = new_block rpc now number producer is_system btc_height m in
          let (r, m') =
            produce_lurosonie_block_with_consensus E rpc now number producer is_system btc_height
              m in
          (r ≡ err waiting)
          × (m'.slurachain_data ≡ m.slurachain_data ++ b ∷ [])
          × (m'.last_block_hash ≡ some hash)
          × (m'.block_sender ≡ m.block_sender)
          × (m'.pending_transactions ≡ m.pending_transactions)
    unfolding add_lurosonie_block_to_chain
    produce_full hash encoded opened fits hashed coded full =
        let sent : ltb (length m.block_sender) block_channel_size ≡ false = ground arith in
        rw (gate_open opened fits) (
          rw (hashed, coded, add_lurosonie_block_to_chain, add_hashed, sent)
            (refl, refl, refl, refl, refl))
