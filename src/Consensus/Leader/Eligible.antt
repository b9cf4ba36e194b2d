-- ===== src/Consensus/Leader/Eligible.antt =====
-- Which validators may act: `verify_relay_validator`, `select_validators` and
-- `can_validator_produce_block` agree.
use slura_chain.Base.{
  ℕ, ◌≡◌, refl, String, false, none, some, [], ◌∷◌, ◌==◌, string_eq, if◌then◌else◌, any, arith,
}
use slura_chain.Base.Map.{Map, lookup, IsUnique}
use slura_chain.Consensus.Types.{RelayValidator}
use slura_chain.Consensus.Leader.{
  can_validator_produce_block, verify_relay_validator, select_validators,
}

select_validators-unlisted :
    (min_relay_stake : ℕ) (m : Map String RelayValidator) (address : String)
    → lookup address m ≡ none
    → any (λ a. a == address) (select_validators min_relay_stake m) ≡ false
unfolding select_validators
select_validators-unlisted min_relay_stake [] address h = refl
select_validators-unlisted min_relay_stake ((key, v) ∷ m) address h =
    ground (arith, select_validators-unlisted min_relay_stake m address)

-- In a map without repeated keys, an address is selected exactly when it is verified.
pub select_validators-verify_relay_validator :
    (min_relay_stake : ℕ) (m : Map String RelayValidator) (address : String)
    → IsUnique m
    → any (λ a. a == address) (select_validators min_relay_stake m)
      ≡ verify_relay_validator min_relay_stake m address
unfolding select_validators verify_relay_validator
select_validators-verify_relay_validator min_relay_stake [] address h = refl
select_validators-verify_relay_validator min_relay_stake ((key, v) ∷ m) address h = ground (
  arith,
  select_validators-verify_relay_validator min_relay_stake m address h.1,
  select_validators-unlisted min_relay_stake m address,
  string_eq.beq_iff key address,
)

-- A registered validator that is not marked as the system's may produce blocks exactly when it is
-- verified; one that is so marked, exactly when it is active.
pub can_validator_produce_block-verify :
    (min_relay_stake : ℕ) (m : Map String RelayValidator) (address : String) (v : RelayValidator)
    → lookup address m ≡ some v
    → can_validator_produce_block min_relay_stake m address
      ≡ (if v.is_system then v.is_active else verify_relay_validator min_relay_stake m address)
unfolding can_validator_produce_block verify_relay_validator
can_validator_produce_block-verify min_relay_stake m address v h = ground arith
