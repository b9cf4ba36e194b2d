-- ===== src/Consensus/Watch/Round.antt =====
-- A round of the consensus loop: what it keeps, what it adds, and what it skips.
use slura_chain.Base.{
  ℕ, zero, suc, ◌+◌, ◌<◌, ◌≤◌, ◌≡◌, refl, ap, sym, ◌∙◌, String, Option, some, List, [], ◌∷◌, length,
  length-append, ◌==◌, nat_eq, string_eq, arith, Bool-cases, inl, inr,
}
use mathlib.Core.Path.{subst}
use slura_chain.Base.Map.{Map}
use slura_chain.Base.Word.{modulus, wrapping_add}
use slura_chain.Base.Outcome.{Result, ok, err}
use slura_chain.Bridge.{Rpc}
use slura_chain.Consensus.Types.{
  TimestampRelease, BlockData, StakeDelegation, RelayValidator, text, Error,
  lurosonie_system_validator, Env, Manager,
}
use slura_chain.Consensus.Leader.{select_block_producer}
use slura_chain.Consensus.Chain.{get_block_height}
use slura_chain.Consensus.Chain.Append.{
  Numbered, Numbered-append, Linked, IsLinked, get_block_height-Numbered,
}
use slura_chain.Consensus.Contract.{
  find_vezcur_contract_address, lurosonie_bft_consensus, bft_reply, update_validator_power_onchain,
}
use slura_chain.Consensus.Heights.{save_last_processed_btc_height}
use slura_chain.Consensus.Produce.{produce_lurosonie_block_with_consensus}
use slura_chain.Consensus.Produce.Outcome.{new_block}
use slura_chain.Consensus.Produce.Block.{produce-Extends_or_Keeps, produce-IsLinked}
use slura_chain.Consensus.Watch.{save_if_checked, check_and_save, process_height, process_heights}

module _ (E : Env) where
  -- What the check after a block, and the saved height, leave alone.
  abbrev pub Core : Type 0
  Core =
      List BlockData
      × Option String
      × List StakeDelegation
      × Map String RelayValidator
      × Option String
      × List TimestampRelease

  abbrev pub core : Manager E → Core
  core m = (
    m.slurachain_data, m.last_block_hash, m.delegations, m.relay_validators, m.current_relay_leader,
    m.block_sender,
  )

  core-bft_reply : (r : Result E.Json Error) (m : Manager E) → core (bft_reply E r m).1 ≡ core m
  unfolding update_validator_power_onchain
  core-bft_reply (err e) m = refl
  core-bft_reply (ok r) m = refl

  pub core-lurosonie_bft_consensus :
      (n : ℕ) (m : Manager E) → core (lurosonie_bft_consensus E n m).1 ≡ core m
  unfolding lurosonie_bft_consensus update_validator_power_onchain
  core-lurosonie_bft_consensus n m =
      let (reply, vm) =
        E.execute_module m.vm (find_vezcur_contract_address E m.vm) "getValidatorRelayPower"
          (text lurosonie_system_validator ∷ []) (some lurosonie_system_validator) in
      elim (Bool-cases (find_vezcur_contract_address E m.vm == "")) [
        | inl unset ↦ rw unset
        | inr set ↦ rw set (core-bft_reply reply (record m { vm = vm }))
      ]

  core-save_if_checked :
      (n : ℕ) (r : Result Unit Error × Manager E) → core (save_if_checked E n r) ≡ core r.1
  unfolding save_last_processed_btc_height
  core-save_if_checked n (err e, m) = refl
  core-save_if_checked n (ok done, m) = refl

  core-check_and_save :
      (n height : ℕ) (r : Result Unit Error × Manager E)
      → core (check_and_save E n height r).1 ≡ core r.1
  core-check_and_save n height (err e, m) = refl
  core-check_and_save n height (ok done, m) =
      core-save_if_checked height (lurosonie_bft_consensus E n m) ∙ core-lurosonie_bft_consensus n m

  abbrev pub producer_of : Manager E → String
  producer_of m = select_block_producer m.current_relay_leader

  -- The production inside `process_height`.
  abbrev pub produced : Rpc → ℕ → ℕ → Manager E → Result Unit Error × Manager E
  produced rpc now height m =
      produce_lurosonie_block_with_consensus E rpc now (wrapping_add (get_block_height E m) 1)
        (producer_of m) (producer_of m == lurosonie_system_validator) height m

  -- The block that it makes, if it makes one.
  abbrev pub next_block : Rpc → ℕ → ℕ → Manager E → BlockData
  next_block rpc now height m =
      new_block E rpc now (wrapping_add (get_block_height E m) 1) (producer_of m)
        (producer_of m == lurosonie_system_validator) height m

  pub core-process_height :
      (rpc : Rpc) (now height : ℕ) (m : Manager E)
      → core (process_height E rpc now height m).1 ≡ core (produced rpc now height m).1
  unfolding process_height
  core-process_height rpc now height m =
      core-check_and_save (wrapping_add (get_block_height E m) 1) height (produced rpc now height m)

  pub process_height-IsLinked :
      (rpc : Rpc) (now height : ℕ) (start : Option String) (m : Manager E)
      → IsLinked E start m
      → IsLinked E start (process_height E rpc now height m).1
  process_height-IsLinked rpc now height start m linked =
      subst (λ (c : Core). Linked E start c.0 c.1) (sym (core-process_height rpc now height m))
        (produce-IsLinked E rpc now _ (producer_of m) _ height m start linked)

  -- However the Bitcoin heights of a round go, a chain that is linked by hashes stays so.
  pub process_heights-IsLinked :
      (node : ℕ → Rpc) (clock : ℕ → ℕ) (count height : ℕ) (start : Option String) (m : Manager E)
      → IsLinked E start m
      → IsLinked E start (process_heights E node clock count height m).1
  unfolding process_heights
  process_heights-IsLinked node clock zero height start m linked = linked
  process_heights-IsLinked node clock (suc count) height start m linked =
      let this = process_height E (node (height + 1)) (clock (height + 1)) (height + 1) m in
      let next =
        process_height-IsLinked (node (height + 1)) (clock (height + 1)) (height + 1) start m
          linked in
      elim (Bool-cases this.0) [
        | inr stopped ↦ rw stopped next
        | inl on ↦ rw on (process_heights-IsLinked node clock count (height + 1) start this.1 next)
      ]

  -- A height adds at most one block, which has the next number.
  process_height-Numbered :
      (rpc : Rpc) (now height : ℕ) (m : Manager E)
      → Numbered 0 m.slurachain_data
      → length m.slurachain_data + 1 < modulus
      → let m' = (process_height E rpc now height m).1 in
        Numbered 0 m'.slurachain_data × (length m'.slurachain_data ≤ length m.slurachain_data + 1)
  process_height-Numbered rpc now height m numbered room =
      let chain : (process_height E rpc now height m).1.slurachain_data
          ≡ (produced rpc now height m).1.slurachain_data =
        ap (λ (c : Core). c.0) (core-process_height rpc now height m) in
      elim (produce-Extends_or_Keeps E rpc now (wrapping_add (get_block_height E m) 1)
        (producer_of m) (producer_of m == lurosonie_system_validator) height m) [
          | inr (same, hash) ↦ rw (chain, same) (numbered, omega arith)
          | inl (extended, hash) ↦
              let height_now : get_block_height E m ≡ length m.slurachain_data =
                get_block_height-Numbered E m numbered in
              rw (chain, extended)
                (
                  Numbered-append 0 m.slurachain_data (next_block rpc now height m) numbered
                      (omega (arith, height_now)),
                  omega (arith, length-append {0} m.slurachain_data),
                )
        ]

  -- The blocks of a round have consecutive numbers that go on from those of a chain numbered from
  -- 1, and there is at most one for each height, while the numbers fit a `u64`.
  pub process_heights-Numbered :
      (node : ℕ → Rpc) (clock : ℕ → ℕ) (count height : ℕ) (m : Manager E)
      → Numbered 0 m.slurachain_data
      → length m.slurachain_data + count < modulus
      → let m' = (process_heights E node clock count height m).1 in
        Numbered 0 m'.slurachain_data
        × (length m'.slurachain_data ≤ length m.slurachain_data + count)
  unfolding process_heights
  process_heights-Numbered node clock zero height m numbered room = (numbered, omega arith)
  process_heights-Numbered node clock (suc count) height m numbered room =
      let this = process_height E (node (height + 1)) (clock (height + 1)) (height + 1) m in
      let (next, bound) =
        process_height-Numbered (node (height + 1)) (clock (height + 1)) (height + 1) m numbered
          (omega arith) in
      elim (Bool-cases this.0) [
        | inr stopped ↦ rw stopped (next, omega (arith, bound))
        | inl on ↦
            let (rest, total) =
              process_heights-Numbered node clock count (height + 1) this.1 next
                (omega (arith, bound)) in
            rw on (rest, omega (arith, bound, total))
      ]
