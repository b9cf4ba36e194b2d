-- ===== src/Consensus/Produce/Block.antt =====
-- What block production keeps, however it ends: the links and the numbers of the chain.
use slura_chain.Base.{
  ℕ, ◌≡◌, refl, ap, ◌∙◌, String, Bool, Option, none, some, List, length, ltb, Bool-cases, inl, inr,
  ◌⊎◌,
}
use slura_chain.Base.Map.{Map, values}
use slura_chain.Base.Word.{wrapping_add}
use slura_chain.Base.Outcome.{Result, ok, err}
use slura_chain.Bridge.{Rpc}
use slura_chain.Consensus.Types.{BlockData, RelayValidator, Error, block_channel_size, Env, Manager}
use slura_chain.Consensus.Power.{
  calculate_relay_powers, calculate_stake_power, get_consensus_threshold,
}
use slura_chain.Consensus.Mempool.{tx_hashes_of, remove_processed_transactions}
use slura_chain.Consensus.Chain.{
  chain_document_of, digest, add_hashed, add_lurosonie_block_to_chain,
}
use slura_chain.Consensus.Chain.Append.{
  IsLinked, Linked-append, Extends, Keeps, add_lurosonie_block_to_chain_outcome,
}
use slura_chain.Consensus.Produce.{finish, produce_lurosonie_block_with_consensus}
use slura_chain.Consensus.Produce.Outcome.{powered, new_block}

module _ (E : Env) where
  finish-chain :
      (processed : List String) (r : Result Unit Error × Manager E)
      → Keeps E r.1 (finish E processed r).1
  unfolding remove_processed_transactions
  finish-chain processed (err e, m) = (refl, refl)
  finish-chain processed (ok done, m) = (refl, refl)

  finish-add :
      (processed : List String) (b : BlockData) (m : Manager E)
      → let m' = (finish E processed (add_lurosonie_block_to_chain E b m)).1 in
        Extends E b m m' ⊎ Keeps E m m'
  finish-add processed b m =
      let (chain, hash) = finish-chain processed (add_lurosonie_block_to_chain E b m) in
      elim (add_lurosonie_block_to_chain_outcome E b m) [
        | inl (extended, hashed) ↦ inl (chain ∙ extended, hash ∙ hashed)
        | inr same ↦
            inr (
              chain ∙ ap (λ r. r.1.slurachain_data) same,
              hash ∙ ap (λ r. r.1.last_block_hash) same,
            )
      ]

  finish-powers :
      (processed : List String) (b : BlockData) (hash encoded : Option String) (m : Manager E)
      → let m' = (finish E processed (add_hashed E b hash encoded m)).1 in
        (m'.delegations ≡ m.delegations) × (m'.relay_validators ≡ m.relay_validators)
  unfolding remove_processed_transactions
  finish-powers processed b none encoded m = (refl, refl)
  finish-powers processed b (some hash) none m = (refl, refl)
  finish-powers processed b (some hash) (some encoded) m =
      elim (Bool-cases (ltb (length m.block_sender) block_channel_size)) [
        | inl room ↦ rw room (refl, refl)
        | inr full ↦ rw full (refl, refl)
      ]

  module _ (rpc : Rpc) (now number : ℕ) (producer : String) (is_system : Bool) (btc_height : ℕ)
      (m : Manager E) where
    -- Block production adds its one block to the chain, or leaves chain and last hash alone.
    pub produce-Extends_or_Keeps :
        let m' =
          (produce_lurosonie_block_with_consensus E rpc now number producer is_system btc_height
            m).1 in
        Extends E (new_block E rpc now number producer is_system btc_height m) m m' ⊎ Keeps E m m'
    unfolding produce_lurosonie_block_with_consensus
    produce-Extends_or_Keeps =
        let refreshed : Map String RelayValidator =
          (calculate_relay_powers m.delegations m.relay_validators).0 in
        let total : ℕ =
          wrapping_add (calculate_relay_powers m.delegations m.relay_validators).1
            (calculate_stake_power refreshed) in
        elim (Bool-cases (ltb total (get_consensus_threshold refreshed))) [
          | inl below ↦ rw below (inr (refl, refl))
          | inr above ↦ rw above (
              finish-add (tx_hashes_of (values m.pending_transactions))
                (new_block E rpc now number producer is_system btc_height m) (powered E m))
        ]

    -- Block production keeps the chain linked by hashes, on success and on every error.
    pub produce-IsLinked :
        (start : Option String)
        → IsLinked E start m
        → IsLinked E start
            (produce_lurosonie_block_with_consensus E rpc now number producer is_system btc_height
              m).1
    produce-IsLinked start linked = elim produce-Extends_or_Keeps [
      | inl (chain, hash) ↦
          rw (chain, hash)
            (Linked-append E start m.last_block_hash m.slurachain_data
              (new_block E rpc now number producer is_system btc_height m) linked refl)
      | inr (chain, hash) ↦ rw (chain, hash) linked
    ]

    -- However it ends, block production leaves the delegations and the refreshed validators.
    pub produce-powers :
        let m' =
          (produce_lurosonie_block_with_consensus E rpc now number producer is_system btc_height
            m).1 in
        (m'.delegations ≡ m.delegations) × (m'.relay_validators ≡ (powered E m).relay_validators)
    unfolding produce_lurosonie_block_with_consensus add_lurosonie_block_to_chain
    produce-powers =
        let b : BlockData = new_block E rpc now number producer is_system btc_height m in
        let refreshed : Map String RelayValidator =
          (calculate_relay_powers m.delegations m.relay_validators).0 in
        let total : ℕ =
          wrapping_add (calculate_relay_powers m.delegations m.relay_validators).1
            (calculate_stake_power refreshed) in
        elim (Bool-cases (ltb total (get_consensus_threshold refreshed))) [
          | inl below ↦ rw below (refl, refl)
          | inr above ↦ rw above (
              finish-powers (tx_hashes_of (values m.pending_transactions)) b
                (digest E (chain_document_of b)) (E.encode_block b) (powered E m))
        ]
