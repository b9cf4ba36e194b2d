-- ===== src/Consensus/Leader/Choice.antt =====
-- The leader is a weighted choice: the seed, reduced modulo the total power, falls into the
-- interval of the validator that is chosen.
use slura_chain.Base.{
  ℕ, ◌+◌, ◌-◌, ◌%◌, ◌<◌, ◌≤◌, ◌≡◌, refl, ◌∙◌, String, Option, none, some, [], ◌∷◌, ◌==◌, nat_eq,
  string_eq, ltb, if◌then◌else◌, arith, sum_by, Bool-cases, true, false, inl, inr,
}
use native.Mathlib.Nat.{sub-zero}
use slura_chain.Base.Map.{sum_by-values, Map, values}
use slura_chain.Base.Word.{
  modulus, saturating_add, saturating_add-fits, wrapping_sum, wrapping_sum-fits,
}
use slura_chain.Consensus.Types.{RelayValidator, lurosonie_system_validator}
use slura_chain.Consensus.Power.Gate.{power_sum}
use slura_chain.Consensus.Leader.{
  random_seed, select_from, choose_leader, select_lurosonie_relay_leader,
}

-- The validator in whose interval `target` falls, when the powers are laid end to end.
abbrev pub weighted_pick : ℕ → Map String RelayValidator → Option (String × RelayValidator)
weighted_pick target [] = none
weighted_pick target ((address, v) ∷ rest) =
    if ltb target v.total_power
    then some (address, v)
    else weighted_pick (target - v.total_power) rest

-- Below the sum of the powers, there is such a validator: it is registered, and has power.
weighted_pick_total :
    (target : ℕ) (m : Map String RelayValidator)
    → target < power_sum m
    → (address : String) × (v : RelayValidator) × (weighted_pick target m ≡ some (address, v))
      × (0 < v.total_power)
weighted_pick_total target [] h = absurd (omega arith)
weighted_pick_total target ((address, v) ∷ rest) h = elim (Bool-cases (ltb target v.total_power)) [
  | inl here ↦ (address, v, rw here, ground (arith, here))
  | inr later ↦
      let (a, w, e, p) =
        weighted_pick_total (target - v.total_power) rest (ground (arith, later, h)) in
      (a, w, rw later e, p)
]

select_from-weighted_pick :
    (fallback : String) (target acc : ℕ) (m : Map String RelayValidator) (address : String)
    (v : RelayValidator)
    → acc ≤ target
    → target < acc + power_sum m
    → acc + power_sum m < modulus
    → weighted_pick (target - acc) m ≡ some (address, v)
    → select_from fallback target acc m ≡ address
unfolding select_from
select_from-weighted_pick fallback target acc [] address v lo hi fits e = absurd (omega arith)
select_from-weighted_pick fallback target acc ((key, w) ∷ rest) address v lo hi fits e =
    let reached : saturating_add acc w.total_power ≡ acc + w.total_power =
      saturating_add-fits acc w.total_power (omega arith) in
    elim (Bool-cases (ltb target (acc + w.total_power))) [
      | inl here ↦ rw (reached, here) (picked (rw (inside here) at e))
      | inr later ↦
          let ih = select_from-weighted_pick fallback target (acc + w.total_power) rest address v in
          rw (reached, later)
            (ih (ground (arith, later)) (omega arith) (omega arith)
              (rw (regroup later) (rw (outside later) at e)))
    ]
  where
    inside : ltb target (acc + w.total_power) ≡ true → ltb (target - acc) w.total_power ≡ true
    inside here = ground arith

    outside : ltb target (acc + w.total_power) ≡ false → ltb (target - acc) w.total_power ≡ false
    outside later = ground arith

    picked :
        ◌≡◌ {A = Option (String × RelayValidator)} (some (key, w)) (some (address, v))
        → key ≡ address
    picked q = cc

    regroup :
        ltb target (acc + w.total_power) ≡ false
        → target - (acc + w.total_power) ≡ target - acc - w.total_power
    regroup later = omega arith

wrapping_sum-power_sum :
    (m : Map String RelayValidator)
    → power_sum m < modulus
    → wrapping_sum (λ v. v.total_power) (values m) ≡ power_sum m
wrapping_sum-power_sum m fits =
    let e : sum_by (λ v. v.total_power) (values m) ≡ power_sum m = sum_by-values _ m in
    wrapping_sum-fits _ (values m) (omega (arith, e)) ∙ e

choose_leader-weighted_pick :
    (now : ℕ) (last_hash : Option String) (first : String) (m : Map String RelayValidator)
    → 0 < power_sum m
    → power_sum m < modulus
    → (v : RelayValidator) × (weighted_pick (random_seed now last_hash % power_sum m) m
        ≡ some (choose_leader now last_hash first m, v))
      × (0 < v.total_power)
unfolding choose_leader
choose_leader-weighted_pick now last_hash first m powered fits =
    let target : ℕ = random_seed now last_hash % power_sum m in
    let below : target < power_sum m = omega arith in
    let (address, v, e, p) = weighted_pick_total target m below in
    let chosen : select_from first target 0 m ≡ address =
      select_from-weighted_pick first target 0 m address v (omega arith) (omega arith) (omega arith)
        (rw sub-zero e) in
    let nonzero : (power_sum m == 0) ≡ false = ground arith in
    (v, rw (wrapping_sum-power_sum m fits, nonzero, chosen) e, p)

-- With some power among the validators and a power sum that fits a `u64`, the leader is the
-- validator in whose interval the seed, reduced modulo the sum, falls; it is never one without
-- power.
pub select_lurosonie_relay_leader-weighted_pick :
    (now : ℕ) (last_hash : Option String) (m : Map String RelayValidator)
    → 0 < power_sum m
    → power_sum m < modulus
    → (v : RelayValidator) × (weighted_pick (random_seed now last_hash % power_sum m) m
        ≡ some (select_lurosonie_relay_leader now last_hash m, v))
      × (0 < v.total_power)
unfolding select_lurosonie_relay_leader
select_lurosonie_relay_leader-weighted_pick now last_hash [] powered fits = absurd (omega arith)
select_lurosonie_relay_leader-weighted_pick now last_hash ((first, w) ∷ rest) powered fits =
    choose_leader-weighted_pick now last_hash first ((first, w) ∷ rest) powered fits

choose_leader_powerless :
    (now : ℕ) (last_hash : Option String) (first : String) (m : Map String RelayValidator)
    → power_sum m ≡ 0
    → choose_leader now last_hash first m ≡ lurosonie_system_validator
unfolding choose_leader
choose_leader_powerless now last_hash first m powerless =
    rw (wrapping_sum-power_sum m (omega arith), powerless)

-- Without power, and without validators, the leader is the system validator.
pub select_lurosonie_relay_leader_powerless :
    (now : ℕ) (last_hash : Option String) (m : Map String RelayValidator)
    → power_sum m ≡ 0
    → select_lurosonie_relay_leader now last_hash m ≡ lurosonie_system_validator
unfolding select_lurosonie_relay_leader
select_lurosonie_relay_leader_powerless now last_hash [] powerless = refl
select_lurosonie_relay_leader_powerless now last_hash ((first, w) ∷ rest) powerless =
    choose_leader_powerless now last_hash first ((first, w) ∷ rest) powerless
