-- ===== src/Consensus/Power/Gate.antt =====
-- The powers that `calculate_relay_powers` leaves, and when the power gate of
-- `produce_lurosonie_block_with_consensus` lets a block through.
use slura_chain.Base.{
  ℕ, ◌+◌, ◌*◌, ◌/◌, ◌<◌, ◌≡◌, refl, ap, ◌∙◌, String, some, List, [], ◌∷◌, ◌==◌, nat_eq, string_eq,
  ltb, if◌then◌else◌, arith, Bool-cases, inl, inr,
}
use mathlib.Core.Option
use slura_chain.Base.Map.{sum_by-values, Map, values, total, lookup}
use slura_chain.Base.Word.{
  modulus, saturating_add, wrapping_add, wrapping_sum, wrapping_sum-fits, saturating_add-fits,
}
use slura_chain.Consensus.Types.{RelayValidator, StakeDelegation}
use slura_chain.Consensus.Power.{
  refresh, relay_powers_from, calculate_relay_powers, stake_power_from, calculate_stake_power,
  get_consensus_threshold,
}

-- The exact sum of the powers.
abbrev pub power_sum : Map String RelayValidator → ℕ
power_sum m = total (λ v. v.total_power) m

-- The new map, by itself.
abbrev refresh_all : List StakeDelegation → Map String RelayValidator → Map String RelayValidator
refresh_all delegations [] = []
refresh_all delegations ((address, v) ∷ m) =
    (address, refresh delegations address v) ∷ refresh_all delegations m

relay_powers_from-map :
    (delegations : List StakeDelegation) (acc : ℕ) (m : Map String RelayValidator)
    → (relay_powers_from delegations acc m).0 ≡ refresh_all delegations m
unfolding relay_powers_from
relay_powers_from-map delegations acc [] = refl
relay_powers_from-map delegations acc ((address, v) ∷ m) =
    ap (λ rest. (address, refresh delegations address v) ∷ rest)
      (relay_powers_from-map delegations
        (saturating_add acc (refresh delegations address v).total_power) m)

relay_powers_from-sum :
    (delegations : List StakeDelegation) (acc : ℕ) (m : Map String RelayValidator)
    → acc + power_sum (refresh_all delegations m) < modulus
    → (relay_powers_from delegations acc m).1 ≡ acc + power_sum (refresh_all delegations m)
unfolding relay_powers_from
relay_powers_from-sum delegations acc [] h = omega arith
relay_powers_from-sum delegations acc ((address, v) ∷ m) h =
    let p : ℕ = (refresh delegations address v).total_power in
    let fits : saturating_add acc p ≡ acc + p = saturating_add-fits acc p (omega arith) in
    rw fits (omega (arith, relay_powers_from-sum delegations (acc + p) m (omega arith)))

stake_power_from-sum :
    (acc : ℕ) (m : Map String RelayValidator)
    → acc + power_sum m < modulus
    → stake_power_from acc m ≡ acc + power_sum m
unfolding stake_power_from
stake_power_from-sum acc [] h = omega arith
stake_power_from-sum acc ((address, v) ∷ m) h =
    let fits : saturating_add acc v.total_power ≡ acc + v.total_power =
      saturating_add-fits acc v.total_power (omega arith) in
    rw fits (omega (arith, stake_power_from-sum (acc + v.total_power) m (omega arith)))

threshold-eq :
    (m : Map String RelayValidator)
    → 2 * power_sum m < modulus
    → get_consensus_threshold m ≡ (if power_sum m == 0 then 1 else 2 * power_sum m / 3)
unfolding get_consensus_threshold
threshold-eq m h =
    let fits : wrapping_sum (λ v. v.total_power) (values m) ≡ power_sum m =
      wrapping_sum-fits _ (values m)
        (omega (arith, sum_by-values (λ (v : RelayValidator). v.total_power) m))
      ∙ sum_by-values _ m in
    rw fits (ground arith)

lookup-refresh_all :
    (delegations : List StakeDelegation) (m : Map String RelayValidator) (address : String)
    → lookup address (refresh_all delegations m)
      ≡ Option.map (refresh delegations address) (lookup address m)
lookup-refresh_all delegations [] address = refl
lookup-refresh_all delegations ((key, v) ∷ m) address = elim (Bool-cases (key == address)) [
  | inl same ↦ rw same (ap (λ k. some (refresh delegations k v)) ((string_eq.beq_iff _ _).0 same))
  | inr other ↦ rw other (lookup-refresh_all delegations m address)
]

refresh-refresh :
    (delegations : List StakeDelegation) (address : String) (v : RelayValidator)
    → refresh delegations address (refresh delegations address v) ≡ refresh delegations address v
unfolding refresh
refresh-refresh delegations address v = refl

refresh_all-refresh_all :
    (delegations : List StakeDelegation) (m : Map String RelayValidator)
    → refresh_all delegations (refresh_all delegations m) ≡ refresh_all delegations m
refresh_all-refresh_all delegations [] = refl
refresh_all-refresh_all delegations ((key, v) ∷ m) =
    cc (refresh-refresh delegations key v, refresh_all-refresh_all delegations m)

-- Every validator keeps its stake and gets its delegated stake and the saturated sum of the two;
-- no validator appears or goes.
pub lookup-calculate_relay_powers :
    (delegations : List StakeDelegation) (m : Map String RelayValidator) (address : String)
    → lookup address (calculate_relay_powers delegations m).0
      ≡ Option.map (refresh delegations address) (lookup address m)
unfolding calculate_relay_powers
lookup-calculate_relay_powers delegations m address =
    rw relay_powers_from-map (lookup-refresh_all delegations m address)

-- The computation is idempotent: powers that are computed again from the same delegations do not
-- change.
pub calculate_relay_powers_idem :
    (delegations : List StakeDelegation) (m : Map String RelayValidator)
    → (calculate_relay_powers delegations (calculate_relay_powers delegations m).0).0
      ≡ (calculate_relay_powers delegations m).0
unfolding calculate_relay_powers
calculate_relay_powers_idem delegations m =
    simp relay_powers_from-map (refresh_all-refresh_all delegations m)

-- The gate itself, over any validators whose relay power is their exact sum.
gate-closed :
    (refreshed : Map String RelayValidator) (relay_power : ℕ)
    → relay_power ≡ power_sum refreshed
    → 2 * power_sum refreshed < modulus
    → ltb
        (wrapping_add relay_power (calculate_stake_power refreshed))
        (get_consensus_threshold refreshed)
      ≡ (power_sum refreshed == 0)
unfolding calculate_stake_power
gate-closed refreshed relay_power e h =
    let stake : stake_power_from 0 refreshed ≡ power_sum refreshed =
      omega (arith, stake_power_from-sum 0 refreshed (omega arith)) in
    rw (e, stake, threshold-eq refreshed h) (ground arith)

-- The powers at the gate: while twice the power sum of the refreshed validators fits a `u64`,
-- relay power plus stake power stays below the threshold exactly when that sum is zero.
pub power_gate-closed :
    (delegations : List StakeDelegation) (m : Map String RelayValidator)
    → 2 * power_sum (calculate_relay_powers delegations m).0 < modulus
    → let (refreshed, relay_power) = calculate_relay_powers delegations m in
      ltb
        (wrapping_add relay_power (calculate_stake_power refreshed))
        (get_consensus_threshold refreshed)
      ≡ (power_sum refreshed == 0)
unfolding calculate_relay_powers
power_gate-closed delegations m h =
    let (refreshed, relay_power) = relay_powers_from delegations 0 m in
    let e : power_sum refreshed ≡ power_sum (refresh_all delegations m) =
      ap (λ v. power_sum v) (relay_powers_from-map delegations 0 m) in
    gate-closed refreshed relay_power
      (omega (arith, e, relay_powers_from-sum delegations 0 m (omega (arith, e)))) h
