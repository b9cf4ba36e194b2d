-- ===== src/Consensus/Leader.antt =====
-- The relay leader: `select_lurosonie_relay_leader`, `select_block_producer` and the tests on
-- validators.
pub mod Choice
pub mod Eligible
use Prim.Native.Nat.{bit_xor}
use Prim.Native.Char.{code}
use Prim.Native.String
use slura_chain.Base.{
  ℕ, zero, suc, ◌%◌, String, Bool, true, false, ◌&&◌, ◌||◌, Option, none, some, List, [], ◌∷◌, ◌==◌,
  nat_eq, string_eq, ltb, leb, if◌then◌else◌,
}
use slura_chain.Base.Map.{Map, values, lookup}
use slura_chain.Base.Word.{saturating_add, wrapping_sum}
use slura_chain.Consensus.Types.{RelayValidator, lurosonie_system_validator}

-- `as_bytes`: a block hash is ASCII, so its code points are its bytes.
abbrev as_bytes : String → List ℕ
as_bytes String.[] = []
as_bytes (String.◌∷◌ c s) = code c ∷ as_bytes s

-- The seed is xored with the first `n` bytes.
unfoldable pub mix_bytes : ℕ → ℕ → List ℕ → ℕ
mix_bytes zero seed bytes = seed
mix_bytes (suc n) seed [] = seed
mix_bytes (suc n) seed (b ∷ bytes) = mix_bytes n (bit_xor seed b) bytes

abbrev pub random_seed : ℕ → Option String → ℕ
unfolding mix_bytes
random_seed now none = now
random_seed now (some last_hash) = mix_bytes 8 now (as_bytes last_hash)

-- The loop over the validators, and `validators.keys().next()` after it.
unfoldable pub select_from : String → ℕ → ℕ → Map String RelayValidator → String
select_from fallback target cumulative_power [] = fallback
select_from fallback target cumulative_power ((address, validator) ∷ rest) =
    let reached = saturating_add cumulative_power validator.total_power in
    let later = select_from fallback target reached rest in
    if ltb target reached then address else later

-- The choice among validators, of which `first_address` is the first key.
unfoldable pub choose_leader : ℕ → Option String → String → Map String RelayValidator → String
choose_leader now last_hash first_address validators =
    let total_power = wrapping_sum (λ v. v.total_power) (values validators) in
    if total_power == 0
    then lurosonie_system_validator
    else select_from first_address (random_seed now last_hash % total_power) 0 validators

unfoldable pub select_lurosonie_relay_leader :
    ℕ → Option String → Map String RelayValidator → String
select_lurosonie_relay_leader now last_hash [] = lurosonie_system_validator
select_lurosonie_relay_leader now last_hash ((address, validator) ∷ rest) =
    choose_leader now last_hash address ((address, validator) ∷ rest)

abbrev pub select_block_producer : Option String → String
select_block_producer none = lurosonie_system_validator
select_block_producer (some leader) = leader

abbrev can_produce : ℕ → Option RelayValidator → Bool
can_produce min_relay_stake none = false
can_produce min_relay_stake (some info) =
    info.is_active && (info.is_system || leb min_relay_stake info.total_power)

unfoldable pub can_validator_produce_block : ℕ → Map String RelayValidator → String → Bool
can_validator_produce_block min_relay_stake validators validator =
    can_produce min_relay_stake (lookup validator validators)

abbrev pub is_eligible : ℕ → RelayValidator → Bool
is_eligible min_relay_stake v = v.is_active && leb min_relay_stake v.total_power

abbrev verified : ℕ → Option RelayValidator → Bool
verified min_relay_stake none = false
verified min_relay_stake (some v) = is_eligible min_relay_stake v

unfoldable pub verify_relay_validator : ℕ → Map String RelayValidator → String → Bool
verify_relay_validator min_relay_stake validators validator_id =
    verified min_relay_stake (lookup validator_id validators)

unfoldable pub select_validators : ℕ → Map String RelayValidator → List String
select_validators min_relay_stake [] = []
select_validators min_relay_stake ((address, v) ∷ rest) =
    let others = select_validators min_relay_stake rest in
    if is_eligible min_relay_stake v then address ∷ others else others
