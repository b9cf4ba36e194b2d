-- ===== src/Tests/Bridge.antt =====
-- The bridge at a concrete node.
use mathlib.Core.Path.{subst}
use slura_chain.Base.{
  ℕ, ◌≡◌, ◌≢◌, refl, String, not, ◌&&◌, Option, none, some, List, [], ◌∷◌, leb, ◌==◌, string_eq,
  if◌then◌else◌, arith, All,
}
use slura_chain.Base.Map.{Map, lookup, insert}
use slura_chain.Base.Outcome.{ok}
use slura_chain.Base.Text.{decimal}
use slura_chain.Base.Lock.{counting, counting_laws}
use slura_chain.Bridge.{
  BtcDeposit, BitcoinBlockAnchor, BitcoinBridge, TxOutput, testnet, get_bridge_address,
  register_deposit, check_outputs, check_deposits, process_new_block, watch_blocks_step,
  check_deposit,
}
use slura_chain.Bridge.Registration.{stored, register_deposit_outcome}
use slura_chain.Bridge.Minting.{AllWatched, watch_blocks_step-AllWatched}
use slura_chain.Bridge.Outputs.{last_paid, deposit_after, lookup-check_outputs}
use slura_chain.Tests.Fixtures.{toy_host, toy_rpc}

-- The anchor that the node gives for a height.
abbrev anchor : ℕ → Option String → BitcoinBlockAnchor
anchor height previous = record {
  height = height;
  block_hash = decimal height;
  previous_block_hash = previous;
  txids = "tx1" ∷ [];
  merkle_root = none;
}

abbrev bridge_with : Map String BtcDeposit → String → BitcoinBridge
bridge_with deposits contract = record {
  api_key = "key";
  network = testnet;
  deposits = deposits;
  vez_contract = contract;
  bridge_address = "";
  last_btc_height = 5;
  persistent_path = "";
}

-- The two outputs of the transaction pay 70 and 30; the second replaces the first.
abbrev watched : Map String BtcDeposit
watched = ("tx1", stored toy_host "tx1" 30 (get_bridge_address toy_host) 1 none) ∷ []

abbrev outputs : List TxOutput
outputs =
    record { address = some "bc1bridge"; value = some 70 }
    ∷ record { address = some "bc1bridge"; value = some 30 }
    ∷ []

polled :
    watch_blocks_step counting toy_host toy_rpc (4, bridge_with [] "")
    ≡ some (5, bridge_with watched "")
unfolding watch_blocks_step process_new_block check_deposits check_deposit check_outputs
    register_deposit get_bridge_address
polled = refl

register_deposit_outcome_example :
    register_deposit counting toy_host "tx1" 30 "bc1x" 6 none (bridge_with [] "0xvez") ≡ (
      if leb 6 6 && not (◌==◌ {A = String} "0xvez" "")
      then none
      else some (bridge_with (insert "tx1" (stored toy_host "tx1" 30 "bc1x" 6 none) []) "0xvez"))
register_deposit_outcome_example =
    register_deposit_outcome counting counting_laws toy_host "tx1" 30 "bc1x" 6 none
      (bridge_with [] "0xvez")

watch_blocks_step-AllWatched_example : AllWatched toy_host watched
watch_blocks_step-AllWatched_example =
    watch_blocks_step-AllWatched counting counting_laws toy_host toy_rpc 4 5 (bridge_with [] "")
      (bridge_with watched "") polled tt

apart : ◌≢◌ {A = String} "tx1" "tx9"
apart = ground (arith, string_eq.beq_iff "tx1" "tx9")

only_tx1 :
    (height : ℕ) (hash : String) (txids : List String)
    → toy_rpc.get_blockcount ≡ ok height
    → toy_rpc.get_block_hash height ≡ ok hash
    → toy_rpc.get_block_txs hash ≡ ok txids
    → All (λ txid. txid ≢ "tx9") txids
only_tx1 height hash txids at_height with_hash listed =
    let same : "tx1" ∷ [] ≡ txids = cc listed in
    subst (λ ts. All (λ txid. txid ≢ "tx9") ts) same (apart, tt)

lookup-check_outputs_example :
    lookup "tx1" watched ≡ deposit_after toy_host "tx1" 1 (last_paid toy_host outputs) none
unfolding check_outputs register_deposit get_bridge_address
lookup-check_outputs_example =
    lookup-check_outputs counting counting_laws toy_host "tx1" 1 outputs (bridge_with [] "")
      (bridge_with watched "") refl
