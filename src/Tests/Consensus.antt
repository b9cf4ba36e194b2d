-- ===== src/Tests/Consensus.antt =====
-- Block production and the rounds of the consensus loop at concrete managers.
use slura_chain.Base.{
  Member, ℕ, ◌+◌, ◌-◌, true, ◌*◌, ◌<◌, ◌≤◌, ◌≡◌, refl, String, false, some, [], ◌∷◌, ◌++◌, length,
  ltb, arith, ◌==◌, nat_eq,
}
use slura_chain.Base.Word.{modulus, wrapping_add}
use slura_chain.Base.Outcome.{ok, err}
use slura_chain.Consensus.Types.{
  Document, chain_document, lookup_document, release_document, Manager,
}
use slura_chain.Consensus.Power.{
  refresh, get_delegated_stake, calculate_relay_powers, calculate_stake_power,
  get_consensus_threshold,
}
use slura_chain.Consensus.Power.Gate.{power_sum, power_gate-closed}
use slura_chain.Base.Text.{decimal}
use slura_chain.Consensus.Mempool.{tx_hash_of, add_transaction_to_mempool}
use slura_chain.Consensus.Chain.Append.{Numbered, IsLinked}
use slura_chain.Consensus.Produce.Processed.{
  made, produce_empties, produce-add_transaction_to_mempool,
}
use slura_chain.Consensus.Produce.{produce_lurosonie_block_with_consensus}
use slura_chain.Consensus.Produce.Outcome.{
  powered, gate_power, new_block, produce_closed, produce_open, produce_full,
}
use slura_chain.Consensus.Watch.{process_height, process_heights}
use slura_chain.Consensus.Watch.Round.{process_heights-Numbered}
use slura_chain.Consensus.Watch.Progress.{process_heights_open}
use Prim.Native.Nat.{min}
use slura_chain.Base.Slices.{repeat, length-repeat}
use slura_chain.Consensus.Chain.{add_block_to_chain}
use slura_chain.Consensus.Types.{TimestampRelease, insufficient_power, waiting}
use slura_chain.Consensus.Start.{new_with_storage}
use slura_chain.Consensus.Start.Reachable.{here, genesis, later, height, Reachable-IsLinked}
use slura_chain.Tests.Fixtures.{
  toy, toy_host, toy_rpc, toy_tx, toy_text, toy_validators, toy_delegations, toy_manager,
  idle_manager,
}

abbrev pub started : Manager toy
started = new_with_storage toy toy_host (some "mainnet") (some "key") [] 0

abbrev genesis_release : TimestampRelease
genesis_release = record {
  timestamp = 0;
  log = "Genesis";
  block_number = 0;
  vyfties_id = "lurosonie_genesis";
}

abbrev after_genesis : Manager toy
after_genesis = record started { last_block_hash = some (toy.sha3_hex "release") }

Reachable-IsLinked_example :
    IsLinked toy after_genesis.last_block_hash (process_height toy toy_rpc 9 1 after_genesis).1
unfolding add_block_to_chain new_with_storage
Reachable-IsLinked_example =
    Reachable-IsLinked toy toy_host (some "mainnet") (some "key") [] 0 after_genesis.last_block_hash
      (process_height toy toy_rpc 9 1 after_genesis).1
      (later (genesis {m = started} genesis_release here refl refl)
        (height toy_rpc 9 1 after_genesis))

power_fits : 2 * power_sum (calculate_relay_powers toy_delegations toy_validators).0 < modulus
unfolding calculate_relay_powers refresh get_delegated_stake
power_fits = omega arith

power_gate-closed_example :
    let (refreshed, relay_power) = calculate_relay_powers toy_delegations toy_validators in
    ltb
      (wrapping_add relay_power (calculate_stake_power refreshed))
      (get_consensus_threshold refreshed)
    ≡ (power_sum refreshed == 0)
power_gate-closed_example = power_gate-closed toy_delegations toy_validators power_fits

gate_opened : 0 < gate_power toy toy_manager
unfolding calculate_relay_powers refresh get_delegated_stake
gate_opened = omega arith

process_heights-Numbered_example :
    let m' = (process_heights toy (λ _. toy_rpc) (λ h. h) 3 0 toy_manager).1 in
    Numbered 0 m'.slurachain_data × (length m'.slurachain_data ≤ 0 + 3)
process_heights-Numbered_example =
    process_heights-Numbered toy (λ _. toy_rpc) (λ h. h) 3 0 toy_manager tt (omega arith)

text_total : (doc : Document) → (text : String) × (toy_text doc ≡ some text)
text_total (chain_document block power stake validator states txs anchor parent) = ("chain", refl)
text_total (lookup_document block power stake validator) = ("lookup", refl)
text_total (release_document block) = ("release", refl)

process_heights_open_example :
    let (ends, m') = process_heights toy (λ _. toy_rpc) (λ h. h) 3 0 toy_manager in
    (length m'.slurachain_data ≡ 0 + min 3 (100 - 0 + 1)) × (ends ≡ true)
process_heights_open_example =
    process_heights_open toy text_total (λ b. ("block", refl)) (λ _. toy_rpc) (λ h. h) 3 0
      toy_manager gate_opened power_fits (omega arith)

produce_open_example :
    let b = new_block toy toy_rpc 9 1 "alice" false 4 toy_manager in
    let (r, m') =
      produce_lurosonie_block_with_consensus toy toy_rpc 9 1 "alice" false 4 toy_manager in
    (r ≡ ok tt)
    × (m'.slurachain_data ≡ [] ++ b ∷ [])
    × (b.transactions ≡ toy_tx ∷ [])
    × (m'.last_block_hash ≡ some "0xchain")
    × (m'.block_sender ≡ [] ++ b.block ∷ [])
    × (m'.pending_transactions ≡ [])
unfolding tx_hash_of decimal
produce_open_example =
    produce_open toy toy_rpc 9 1 "alice" false 4 toy_manager "0xchain" "block" gate_opened
      power_fits refl refl (omega arith)

gate_shut : gate_power toy idle_manager ≡ 0
unfolding calculate_relay_powers refresh get_delegated_stake
gate_shut = refl

produce_closed_example :
    (total threshold : ℕ) × (produce_lurosonie_block_with_consensus toy toy_rpc 9 1 "alice" false 4
        idle_manager
      ≡ (err (insufficient_power 1 total threshold), powered toy idle_manager))
produce_closed_example = produce_closed toy toy_rpc 9 1 "alice" false 4 idle_manager gate_shut

abbrev full_manager : Manager toy
full_manager = record toy_manager { block_sender = repeat 100 genesis_release }

produce_full_example :
    let b = new_block toy toy_rpc 9 1 "alice" false 4 full_manager in
    let (r, m') =
      produce_lurosonie_block_with_consensus toy toy_rpc 9 1 "alice" false 4 full_manager in
    (r ≡ err waiting)
    × (m'.slurachain_data ≡ [] ++ b ∷ [])
    × (m'.last_block_hash ≡ some "0xchain")
    × (m'.block_sender ≡ full_manager.block_sender)
    × (m'.pending_transactions ≡ full_manager.pending_transactions)
produce_full_example =
    produce_full toy toy_rpc 9 1 "alice" false 4 full_manager "0xchain" "block" gate_opened
      power_fits refl refl (omega (arith, length-repeat 100 genesis_release))

produce_empties_example :
    let (r, m') =
      produce_lurosonie_block_with_consensus toy toy_rpc 9 1 "alice" false 4 toy_manager in
    (r ≡ ok tt) × (m'.pending_transactions ≡ [])
unfolding tx_hash_of decimal
produce_empties_example =
    produce_empties toy toy_rpc 9 1 "alice" false 4 "0xchain" "block" toy_manager (refl, tt)
      gate_opened power_fits refl refl (omega arith)

abbrev resent_manager : Manager toy
resent_manager = add_transaction_to_mempool toy_tx toy_manager

produce-add_transaction_to_mempool_example :
    let made_of = made toy toy_rpc 9 1 "alice" false 4 "0xchain" "block" in
    let (r, m') =
      produce_lurosonie_block_with_consensus toy toy_rpc 9 1 "alice" false 4 resent_manager in
    (r ≡ ok tt)
    × Member toy_tx (made_of resent_manager).transactions
    × Member toy_tx (made_of m').transactions
unfolding tx_hash_of decimal add_transaction_to_mempool
produce-add_transaction_to_mempool_example =
    produce-add_transaction_to_mempool toy toy_rpc 9 1 "alice" false 4 "0xchain" "block" toy_tx
      toy_manager refl gate_opened power_fits refl refl (omega arith)
