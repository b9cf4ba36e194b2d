-- ===== src/Governance/Stakes.antt =====
-- Staking and taking the stake back.
use slura_chain.Base.{ℕ, ◌+◌, ◌<◌, ◌≡◌, refl, ap, ◌∙◌, ltb, if◌then◌else◌, arith}
use slura_chain.Base.Word.{modulus, wrapping_add, saturating_sub}
use slura_chain.Base.Outcome.{Result, ok, err}
use slura_chain.Consensus.Types.{Env}
use slura_chain.Governance.{
  SlurachainGovernance, GovernanceError, call_gov, after_stake, after_unstake, stake_vez,
  unstake_vez, get_locked_amount,
}

module _ (E : Env) where
  after_stake_ok :
      (amount : ℕ) (g : SlurachainGovernance) (r : Result Unit GovernanceError × E.Vm)
      → (after_stake E amount g r).0 ≡ ok tt
      → (after_stake E amount g r).1 ≡ record g {
        vez_stacking_locked = wrapping_add g.vez_stacking_locked amount;
        vez_stacking_unlocked = saturating_sub g.vez_stacking_unlocked amount;
      }
  after_stake_ok amount g (err e, vm) done = ground (arith, done)
  after_stake_ok amount g (ok t, vm) done = refl

  after_unstake_ok :
      (amount : ℕ) (g : SlurachainGovernance) (r : Result Unit GovernanceError × E.Vm)
      → (after_unstake E amount g r).0 ≡ ok tt
      → (after_unstake E amount g r).1 ≡ record g {
        vez_stacking_locked = saturating_sub g.vez_stacking_locked amount;
        vez_stacking_unlocked = wrapping_add g.vez_stacking_unlocked amount;
      }
  after_unstake_ok amount g (err e, vm) done = ground (arith, done)
  after_unstake_ok amount g (ok t, vm) done = refl

  -- Staking an amount and taking it back, in two calls that answer `Ok` and while the counters fit
  -- 64 bits, gives the locked amount back, and the unlocked amount too if it covered the stake; an
  -- account that had less unlocked than it staked then has the whole amount unlocked.
  pub unstake_vez-stake_vez :
      (amount : ℕ) (g : SlurachainGovernance) (vm vm' : E.Vm)
      → (stake_vez E amount g vm).0 ≡ ok tt
      → (unstake_vez E amount (stake_vez E amount g vm).1 vm').0 ≡ ok tt
      → g.vez_stacking_locked + amount < modulus
      → g.vez_stacking_unlocked < modulus
      → let g' = (unstake_vez E amount (stake_vez E amount g vm).1 vm').1 in
        (get_locked_amount g' ≡ get_locked_amount g)
        × (g'.vez_stacking_unlocked
            ≡ (if ltb g.vez_stacking_unlocked amount then amount else g.vez_stacking_unlocked))
  unfolding stake_vez unstake_vez get_locked_amount
  unstake_vez-stake_vez amount g vm vm' staked taken fits fits' =
      let first = after_stake_ok amount g (call_gov E "stake" g.account_address vm) staked in
      let g1 = (stake_vez E amount g vm).1 in
      let second = after_unstake_ok amount g1 (call_gov E "unstake" g1.account_address vm') taken in
      (
        ap (λ (x : SlurachainGovernance). x.vez_stacking_locked) second ∙ rw first (omega arith),
        ap (λ (x : SlurachainGovernance). x.vez_stacking_unlocked) second ∙ rw first (ground arith),
      )
