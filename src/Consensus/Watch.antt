-- ===== src/Consensus/Watch.antt =====
-- The consensus loop: `start_lurosonie_consensus`.
pub mod Round
pub mod Progress
use Prim.Native.Nat.{max}
use slura_chain.Base.{
  ℕ, zero, suc, ◌+◌, ◌-◌, String, Bool, true, false, Option, none, some, ◌==◌, nat_eq, string_eq,
  ltb, if◌then◌else◌,
}
use slura_chain.Base.Word.{wrapping_add}
use slura_chain.Base.Outcome.{Result, ok, err, or_error}
use slura_chain.Bridge.{Rpc}
use slura_chain.Consensus.Types.{
  Error, waiting, bridge_not_configured, bridge_failed, lurosonie_system_validator, Env, Manager,
}
use slura_chain.Consensus.Leader.{select_block_producer}
use slura_chain.Consensus.Chain.{get_block_height}
use slura_chain.Consensus.Contract.{initialize_system_validator, lurosonie_bft_consensus}
use slura_chain.Consensus.Heights.{load_last_processed_btc_height, save_last_processed_btc_height}
use slura_chain.Consensus.Produce.{produce_lurosonie_block_with_consensus}

module _ (E : Env) where
  unfoldable pub get_blockcount_from_bridge : Rpc → Manager E → Result ℕ Error
  get_blockcount_from_bridge rpc m = elim m.btc_bridge [
    | none ↦ err bridge_not_configured
    | some bridge ↦ or_error bridge_failed rpc.get_blockcount
  ]

  -- After the block: an error goes on to the next height, and only a full success is saved.
  abbrev pub save_if_checked : ℕ → Result Unit Error × Manager E → Manager E
  save_if_checked btc_height (err e, m) = m
  save_if_checked btc_height (ok done, m) = save_last_processed_btc_height E btc_height m

  -- Whether the loop goes on, and the manager.
  abbrev pub goes_on : Error → Bool
  goes_on e = elim e [ waiting ↦ false | _ ↦ true ]

  abbrev pub check_and_save : ℕ → ℕ → Result Unit Error × Manager E → Bool × Manager E
  check_and_save block_number btc_height (err e, m) = (goes_on e, m)
  check_and_save block_number btc_height (ok done, m) =
      (true, save_if_checked btc_height (lurosonie_bft_consensus E block_number m))

  -- The body of the loop over the new Bitcoin heights.
  unfoldable pub process_height : Rpc → ℕ → ℕ → Manager E → Bool × Manager E
  process_height rpc now btc_height m =
      let block_number = wrapping_add (get_block_height E m) 1 in
      let producer = select_block_producer m.current_relay_leader in
      check_and_save block_number btc_height (
        produce_lurosonie_block_with_consensus E rpc now block_number producer
          (producer == lurosonie_system_validator) btc_height m)

  -- `for i in 1..=new_blocks`, with `count` heights left and `height` the one before. The node's
  -- answers and the time are those of each height. Once a height waits, no other comes.
  unfoldable pub process_heights : (ℕ → Rpc) → (ℕ → ℕ) → ℕ → ℕ → Manager E → Bool × Manager E
  process_heights node clock zero height m = (true, m)
  process_heights node clock (suc count) height m =
      let this = process_height (node (height + 1)) (clock (height + 1)) (height + 1) m in
      let rest = process_heights node clock count (height + 1) this.1 in
      if this.0 then rest else this

  abbrev pub remembered : ℕ → Bool × Manager E → Option ℕ × Manager E
  remembered current (goes, m) = (if goes then some current else none, m)

  abbrev pub round_reply :
      (ℕ → Rpc) → (ℕ → ℕ) → Result ℕ Error → ℕ → Manager E → Option ℕ × Manager E
  round_reply node clock (err e) last_processed m = (some last_processed, m)
  round_reply node clock (ok current) last_processed m =
      if ltb last_processed current
      then remembered current
          (process_heights node clock (current - last_processed) last_processed m)
      else (some last_processed, m)

  -- One turn of the `loop`: the height that it remembers, `none` if it does not come to its end,
  -- and the manager. `rpc` answers the call
  -- for the block count.
  unfoldable pub consensus_round : Rpc → (ℕ → Rpc) → (ℕ → ℕ) → ℕ → Manager E → Option ℕ × Manager E
  unfolding get_blockcount_from_bridge
  consensus_round rpc node clock last_processed m =
      round_reply node clock (get_blockcount_from_bridge rpc m) last_processed m

  abbrev pub loaded_or_zero : Result ℕ Error → ℕ
  loaded_or_zero (ok height) = height
  loaded_or_zero (err e) = 0

  abbrev pub first_height : Result ℕ Error → Manager E → ℕ × Manager E
  first_height (err e) m = (0, m)
  first_height (ok current) m = (current, save_last_processed_btc_height E current m)

  -- What comes before the loop; the watcher runs beside it.
  unfoldable pub start_lurosonie_consensus : Rpc → ℕ → Manager E → ℕ × Manager E
  unfolding get_blockcount_from_bridge
  start_lurosonie_consensus rpc now m =
      let ready = initialize_system_validator E now m in
      let saved =
        max (loaded_or_zero (load_last_processed_btc_height E ready)) ready.last_btc_height in
      if saved == 0
      then first_height (get_blockcount_from_bridge rpc ready) ready
      else (saved, ready)
