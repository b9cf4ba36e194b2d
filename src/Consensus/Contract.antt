-- ===== src/Consensus/Contract.antt =====
-- The calls of the VEZ contract: the system validator, relay power on chain, rewards, the check
-- after a block, delegation and the rotation of the leader. The time is an argument of each call.
pub mod Delegation
pub mod Validators
use slura_chain.Base.{
  ℕ, String, Bool, true, Option, none, some, List, [], ◌∷◌, ◌++◌, ◌==◌, string_eq, ltb, leb,
  if◌then◌else◌,
}
use slura_chain.Base.Map.{Map, lookup, insert, contains}
use slura_chain.Base.Outcome.{Result, ok, err}
use slura_chain.Base.Text.{join}
use slura_chain.Consensus.Types.{
  RelayValidator, StakeDelegation, Argument, text, number, Error, unknown_validator,
  insufficient_stake, vm_failed, invalid_relay_master, lurosonie_system_validator, Env, Manager,
}
use slura_chain.Consensus.Power.{calculate_relay_powers}
use slura_chain.Consensus.Leader.{select_lurosonie_relay_leader}

abbrev pub vez_fallback : String
vez_fallback = "0xeeeeeeeeeeeeeeeeeeeeeeeeeeeeeeeeeeeeeeee"

module _ (E : Env) where
  open E use {Vm, Json, as_u64, address_map, execute_module}

  -- The keys are tried in their order.
  unfoldable pub first_address : Vm → List String → String
  first_address vm [] = vez_fallback
  first_address vm (key ∷ keys) =
      let later = first_address vm keys in
      elim (address_map vm key) [ some address ↦ address | none ↦ later ]

  unfoldable pub find_vezcur_contract_address : Vm → String
  unfolding first_address
  find_vezcur_contract_address vm =
      first_address vm ("vezcur" ∷ "vez" ∷ "token" ∷ "main_token" ∷ [])

  -- `.ok().and_then(|r| r.as_u64()).unwrap_or(0)`
  abbrev pub number_or_zero : Result Json Error → ℕ
  number_or_zero (err e) = 0
  number_or_zero (ok r) = elim (as_u64 r) [ none ↦ 0 | some n ↦ n ]

  abbrev pub balance_of_system : Vm → String → Result Json Error × Vm
  balance_of_system vm vez =
      execute_module vm vez "balanceOf" (text lurosonie_system_validator ∷ [])
        (some lurosonie_system_validator)

  abbrev pub system_validator : ℕ → ℕ → ℕ → RelayValidator
  system_validator now min_relay_stake stake = record {
    address = lurosonie_system_validator;
    stake = stake;
    delegated_stake = 0;
    total_power = stake;
    is_active = leb min_relay_stake stake;
    relay_count = 0;
    last_relay_time = now;
    is_system = true;
  }

  -- The system validator with the stake that is found, and the machine after the call.
  abbrev pub install_system : ℕ → Map String RelayValidator → ℕ → Vm → Manager E → Manager E
  install_system now validators stake vm m = record m {
    vm = vm;
    relay_validators =
        insert lurosonie_system_validator (system_validator now m.min_relay_stake stake) validators;
    current_relay_leader = some lurosonie_system_validator;
  }

  unfoldable pub initialize_system_validator : ℕ → Manager E → Manager E
  unfolding find_vezcur_contract_address
  initialize_system_validator now m =
      let vez = find_vezcur_contract_address m.vm in
      let (reply, vm) = balance_of_system m.vm vez in
      if vez == ""
      then install_system now m.relay_validators 0 m.vm m
      else install_system now m.relay_validators (number_or_zero reply) vm m

  -- The other validators are cleared.
  unfoldable pub sync_relay_validators_from_vm : ℕ → Manager E → Manager E
  unfolding find_vezcur_contract_address
  sync_relay_validators_from_vm now m =
      let (reply, vm) = balance_of_system m.vm (find_vezcur_contract_address m.vm) in
      install_system now [] (number_or_zero reply) vm m

  -- The steps in between are always `Ok`.
  unfoldable pub lurosonie_relay_power_rotation : ℕ → ℕ → Manager E → Manager E
  unfolding sync_relay_validators_from_vm
  lurosonie_relay_power_rotation now now' m =
      let synced = sync_relay_validators_from_vm now m in
      let (validators, total) = calculate_relay_powers synced.delegations synced.relay_validators in
      record synced {
        relay_validators = validators;
        current_relay_leader =
            some (select_lurosonie_relay_leader now' synced.last_block_hash validators);
      }

  abbrev pub new_power : Result Json Error → Result ℕ Error
  new_power (err e) = err e
  new_power (ok r) = elim (as_u64 r) [ none ↦ err invalid_relay_master | some n ↦ ok n ]

  unfoldable pub update_validator_power_onchain :
      String → ℕ → Manager E → Result ℕ Error × Manager E
  unfolding find_vezcur_contract_address
  update_validator_power_onchain validator delegated_amount m =
      let (reply, vm) =
        execute_module m.vm (find_vezcur_contract_address m.vm) "relay_master"
          (text validator ∷ number delegated_amount ∷ []) (some lurosonie_system_validator) in
      (new_power reply, record m { vm = vm })

  abbrev pub done_or_error : Result Json Error → Result Unit Error
  done_or_error (err e) = err e
  done_or_error (ok r) = ok tt

  unfoldable pub distribute_block_reward : String → ℕ → Manager E → Result Unit Error × Manager E
  unfolding find_vezcur_contract_address
  distribute_block_reward producer reward_amount m =
      let (reply, vm) =
        execute_module m.vm (find_vezcur_contract_address m.vm) "reward_lurosonie_holder"
          (text producer ∷ number reward_amount ∷ []) (some lurosonie_system_validator) in
      (done_or_error reply, record m { vm = vm })

  -- After `getValidatorRelayPower`: an error ends the check; the power update may fail.
  abbrev pub bft_reply : Result Json Error → Manager E → Result Unit Error × Manager E
  unfolding update_validator_power_onchain
  bft_reply (err e) m = (err e, m)
  bft_reply (ok r) m = (ok tt, (update_validator_power_onchain lurosonie_system_validator 0 m).1)

  -- The governance entry is only printed, and the block number too.
  unfoldable pub lurosonie_bft_consensus : ℕ → Manager E → Result Unit Error × Manager E
  unfolding find_vezcur_contract_address update_validator_power_onchain
  lurosonie_bft_consensus block_number m =
      let vez = find_vezcur_contract_address m.vm in
      let (reply, vm) =
        execute_module m.vm vez "getValidatorRelayPower" (text lurosonie_system_validator ∷ [])
          (some lurosonie_system_validator) in
      if vez == ""
      then (ok tt, (update_validator_power_onchain lurosonie_system_validator 0 m).1)
      else bft_reply reply (record m { vm = vm })

  abbrev pub vezcur_path : Vm → String
  vezcur_path vm =
      join (elim (address_map vm "vezcur") [ none ↦ "*frame000*" | some address ↦ address ])
        "::vezcur"

  unfoldable pub delegate_stake :
      ℕ → String → String → ℕ → Manager E → Result Unit Error × Manager E
  delegate_stake now delegator validator amount m =
      let (reply, vm) =
        execute_module m.vm (vezcur_path m.vm) "solde_of" (text delegator ∷ []) (some delegator) in
      let balance = number_or_zero reply in
      let delegation : StakeDelegation = record {
        delegator = delegator;
        validator = validator;
        amount = amount;
        timestamp = now;
      } in
      if contains validator m.relay_validators
      then (if ltb balance amount
          then (err (insufficient_stake balance amount), record m { vm = vm })
          else (ok tt, record m { vm = vm; delegations = m.delegations ++ delegation ∷ [] }))
      else (err (unknown_validator validator), m)
