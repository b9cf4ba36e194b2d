-- ===== src/Consensus/Contract/Validators.antt =====
-- What the calls of the VEZ contract leave in the set of validators.
use slura_chain.Base.{
  ℕ, ◌≡◌, refl, ap, String, Option, some, [], ◌∷◌, nat_eq, string_eq, leb, arith,
}
use slura_chain.Consensus.Types.{RelayValidator, lurosonie_system_validator, Env, Manager}
use slura_chain.Consensus.Power.{refresh, calculate_relay_powers}
use slura_chain.Consensus.Leader.{select_from, choose_leader, select_lurosonie_relay_leader}
use slura_chain.Consensus.Contract.{
  lurosonie_relay_power_rotation, system_validator, number_or_zero, balance_of_system,
  find_vezcur_contract_address,
}

-- With the system validator alone, the choice is the system validator, whatever the seed.
leader_alone :
    (now : ℕ) (last_hash : Option String) (v : RelayValidator)
    → select_lurosonie_relay_leader now last_hash ((lurosonie_system_validator, v) ∷ [])
      ≡ lurosonie_system_validator
unfolding select_lurosonie_relay_leader choose_leader select_from
leader_alone now last_hash v = ground arith

module _ (E : Env) where
  -- A rotation leaves the system validator as the only validator and as the leader, whatever
  -- validators there were, whatever the contract answers and at whatever times; it is active
  -- exactly when its stake reaches the minimum.
  pub lurosonie_relay_power_rotation_system :
      (now now' : ℕ) (m : Manager E)
      → (v : RelayValidator) × ((lurosonie_relay_power_rotation E now now' m).relay_validators
          ≡ (lurosonie_system_validator, v) ∷ [])
        × ((lurosonie_relay_power_rotation E now now' m).current_relay_leader
            ≡ some lurosonie_system_validator)
        × (v.is_active ≡ leb m.min_relay_stake v.stake)
  unfolding lurosonie_relay_power_rotation calculate_relay_powers refresh
  lurosonie_relay_power_rotation_system now now' m =
      let stake : ℕ =
        number_or_zero E (balance_of_system E m.vm (find_vezcur_contract_address E m.vm)).0 in
      let v : RelayValidator =
        refresh m.delegations lurosonie_system_validator
          (system_validator E now m.min_relay_stake stake) in
      (v, refl, ap (λ a. some a) (leader_alone now' m.last_block_hash v), refl)
