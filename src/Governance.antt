-- ===== src/Governance.antt =====
-- crates/vuc-platform/src/consensus/slurachain_gov.rs: the stakes of one account.
pub mod Stakes
use slura_chain.Base.{ℕ, String, Option, none, some, []}
use slura_chain.Base.Word.{wrapping_add, saturating_sub}
use slura_chain.Base.Outcome.{Result, ok, err}
use slura_chain.Base.Text.{join}
use slura_chain.Consensus.Types.{Error, Env}

pub record SlurachainGovernance : Type 0 where
  pub vez_stacking_locked : ℕ
  pub vez_stacking_unlocked : ℕ
  pub vez_stacking_totalvalue : ℕ
  pub vez_stacking_allocated : ℕ
  pub account_address : String

-- `anyhow::Error`: the address that is missing, or the error of the call.
pub data GovernanceError : Type 0 where
  module_not_found : GovernanceError
  call_failed : Error → GovernanceError

module _ (E : Env) where
  open E use {Vm, Json, address_map, execute_module}

  abbrev pub call_reply : Result Json Error × Vm → Result Unit GovernanceError × Vm
  call_reply (err e, vm) = (err (call_failed e), vm)
  call_reply (ok r, vm) = (ok tt, vm)

  -- The call of `vez_std_gov` that every operation begins with; the amount is not passed on.
  unfoldable pub call_gov : String → String → Vm → Result Unit GovernanceError × Vm
  call_gov function_name account vm = elim (address_map vm "vezcur") [
    | none ↦ (err module_not_found, vm)
    | some module_address ↦
        call_reply
          (execute_module vm (join module_address "::vez_std_gov") function_name [] (some account))
  ]

  -- The counters change only after a call that is `Ok`.
  abbrev pub after_stake :
      ℕ
      → SlurachainGovernance
      → Result Unit GovernanceError × Vm
      → Result Unit GovernanceError × SlurachainGovernance × Vm
  after_stake amount g (err e, vm) = (err e, g, vm)
  after_stake amount g (ok done, vm) = (
    ok tt,
    record g {
      vez_stacking_locked = wrapping_add g.vez_stacking_locked amount;
      vez_stacking_unlocked = saturating_sub g.vez_stacking_unlocked amount;
    },
    vm,
  )

  unfoldable pub stake_vez :
      ℕ → SlurachainGovernance → Vm → Result Unit GovernanceError × SlurachainGovernance × Vm
  unfolding call_gov
  stake_vez amount g vm = after_stake amount g (call_gov "stake" g.account_address vm)

  abbrev pub after_unstake :
      ℕ
      → SlurachainGovernance
      → Result Unit GovernanceError × Vm
      → Result Unit GovernanceError × SlurachainGovernance × Vm
  after_unstake amount g (err e, vm) = (err e, g, vm)
  after_unstake amount g (ok done, vm) = (
    ok tt,
    record g {
      vez_stacking_locked = saturating_sub g.vez_stacking_locked amount;
      vez_stacking_unlocked = wrapping_add g.vez_stacking_unlocked amount;
    },
    vm,
  )

  unfoldable pub unstake_vez :
      ℕ → SlurachainGovernance → Vm → Result Unit GovernanceError × SlurachainGovernance × Vm
  unfolding call_gov
  unstake_vez amount g vm = after_unstake amount g (call_gov "unstake" g.account_address vm)

  unfoldable pub vote_proposal : SlurachainGovernance → Vm → Result Unit GovernanceError × Vm
  unfolding call_gov
  vote_proposal g vm = call_gov "vote" g.account_address vm

unfoldable pub get_locked_amount : SlurachainGovernance → ℕ
get_locked_amount g = g.vez_stacking_locked
