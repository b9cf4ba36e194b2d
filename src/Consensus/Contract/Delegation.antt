-- ===== src/Consensus/Contract/Delegation.antt =====
-- `delegate_stake` and the delegated stake that it adds.
use slura_chain.Base.{
  ℕ, ◌≡◌, refl, String, true, some, List, [], ◌∷◌, ◌++◌, ◌==◌, string_eq, ltb, if◌then◌else◌,
  keep-append, sum_by-append, arith, Bool-cases, inl, inr, ◌⊎◌,
}
use mathlib.Core.List.{append-nil}
use slura_chain.Base.Map.{contains}
use slura_chain.Base.Word.{wrapping_add, wrapping_sum-eq}
use slura_chain.Base.Outcome.{ok, err}
use slura_chain.Consensus.Types.{
  StakeDelegation, Error, unknown_validator, insufficient_stake, text, Env, Manager,
}
use slura_chain.Consensus.Power.{get_delegated_stake}
use slura_chain.Consensus.Contract.{number_or_zero, vezcur_path, delegate_stake}

-- One more delegation adds its amount, modulo 2^64, to its validator and to no other.
pub get_delegated_stake-append :
    (delegations : List StakeDelegation) (d : StakeDelegation) (validator : String)
    → get_delegated_stake (delegations ++ d ∷ []) validator ≡ (
        if d.validator == validator
        then wrapping_add (get_delegated_stake delegations validator) d.amount
        else get_delegated_stake delegations validator)
unfolding get_delegated_stake
get_delegated_stake-append delegations d validator =
    rw keep-append (elim (Bool-cases (d.validator == validator)) [
      | inl same ↦ rw same (rw (wrapping_sum-eq, wrapping_sum-eq, sum_by-append) (omega arith))
      | inr other ↦ rw other (rw append-nil)
    ])

module _ (E : Env) where
  -- A delegation that goes through adds its amount, modulo 2^64, to the delegated stake of its
  -- validator, which is registered, and to no other; one that fails adds nothing to any.
  pub delegate_stake_outcome :
      (now : ℕ) (delegator validator : String) (amount : ℕ) (m : Manager E) (other : String)
      → let (r, m') = delegate_stake E now delegator validator amount m in
        ((r ≡ ok tt)
          × (contains validator m.relay_validators ≡ true)
          × (get_delegated_stake m'.delegations other ≡ (
              if validator == other
              then wrapping_add (get_delegated_stake m.delegations other) amount
              else get_delegated_stake m.delegations other)))
        ⊎ (((e : Error) × (r ≡ err e)) × (m'.delegations ≡ m.delegations))
  unfolding delegate_stake
  delegate_stake_outcome now delegator validator amount m other =
      let reply =
        (E.execute_module m.vm (vezcur_path E m.vm) "solde_of" (text delegator ∷ [])
          (some delegator)).0 in
      elim (Bool-cases (contains validator m.relay_validators)) [
        | inr unknown ↦ rw unknown (inr ((unknown_validator validator, refl), refl))
        | inl known ↦ elim (Bool-cases (ltb (number_or_zero E reply) amount)) [
          | inl short ↦
              rw (known, short)
                (inr ((insufficient_stake (number_or_zero E reply) amount, refl), refl))
          | inr enough ↦
              rw (known, enough)
                (inl (refl, refl, get_delegated_stake-append m.delegations _ other))
        ]
      ]
