-- ===== src/Consensus/Power.antt =====
-- Relay power: delegated stake, the powers of the validators, the stake power and the threshold.
pub mod Gate
use slura_chain.Base.{
  ℕ, ◌*◌, ◌/◌, String, List, [], ◌∷◌, ◌==◌, nat_eq, string_eq, if◌then◌else◌, keep,
}
use slura_chain.Base.Map.{Map, values}
use slura_chain.Base.Word.{saturating_add, wrapping_sum, wrapping_mul}
use slura_chain.Consensus.Types.{RelayValidator, StakeDelegation}

unfoldable pub get_delegated_stake : List StakeDelegation → String → ℕ
get_delegated_stake delegations validator =
    wrapping_sum (λ d. d.amount) (keep (λ d. d.validator == validator) delegations)

-- The body of the loop of `calculate_relay_powers`.
unfoldable pub refresh : List StakeDelegation → String → RelayValidator → RelayValidator
refresh delegations address validator =
    let delegated = get_delegated_stake delegations address in
    record validator {
      delegated_stake = delegated;
      total_power = saturating_add validator.stake delegated;
    }

unfoldable pub relay_powers_from :
    List StakeDelegation → ℕ → Map String RelayValidator → Map String RelayValidator × ℕ
relay_powers_from delegations total [] = ([], total)
relay_powers_from delegations total ((address, validator) ∷ rest) =
    let refreshed = refresh delegations address validator in
    let (others, sum) =
      relay_powers_from delegations (saturating_add total refreshed.total_power) rest in
    ((address, refreshed) ∷ others, sum)

-- The validators with their new powers, and the total. The `Result` of the source is always `Ok`.
unfoldable pub calculate_relay_powers :
    List StakeDelegation → Map String RelayValidator → Map String RelayValidator × ℕ
unfolding relay_powers_from
calculate_relay_powers delegations validators = relay_powers_from delegations 0 validators

unfoldable pub stake_power_from : ℕ → Map String RelayValidator → ℕ
stake_power_from acc [] = acc
stake_power_from acc ((_, validator) ∷ rest) =
    stake_power_from (saturating_add acc validator.total_power) rest

-- The sum over the delegations that the source computes first is not used.
unfoldable pub calculate_stake_power : Map String RelayValidator → ℕ
unfolding stake_power_from
calculate_stake_power validators = stake_power_from 0 validators

unfoldable pub get_consensus_threshold : Map String RelayValidator → ℕ
get_consensus_threshold validators =
    let total_power = wrapping_sum (λ v. v.total_power) (values validators) in
    if total_power == 0 then 1 else wrapping_mul total_power 2 / 3
