-- ===== src/Tests/Ledger.antt =====
-- Balances, the mempool, delegation, the leader and the validators at concrete inputs.
use slura_chain.Base.{
  ℕ, ◌+◌, ◌-◌, ◌%◌, ◌<◌, ◌≤◌, ◌≡◌, ◌≢◌, refl, String, false, none, some, [], ◌∷◌, arith, ◌==◌,
  string_eq,
}
use slura_chain.Base.Map.{Map, lookup, lookup_or}
use slura_chain.Base.Outcome.{ok}
use slura_chain.Consensus.Types.{RelayValidator}
use slura_chain.Consensus.Power.Gate.{power_sum}
use slura_chain.Consensus.Leader.{random_seed, select_lurosonie_relay_leader}
use slura_chain.Consensus.Leader.Choice.{weighted_pick, select_lurosonie_relay_leader-weighted_pick}
use slura_chain.Consensus.Ledger.{execute_native_transfer}
use slura_chain.Consensus.Ledger.Transfer.{
  supply, execute_native_transfer-supply, execute_native_transfer_moves,
}
use slura_chain.Tests.Fixtures.{toy_validators}

apart : (a b : String) → (a == b) ≡ false → a ≢ b
apart a b other = ground (arith, string_eq.beq_iff a b, other)

abbrev accounts : Map String ℕ
accounts = ("alice", 100) ∷ ("bob", 7) ∷ []

abbrev paid : Map String ℕ
paid = ("alice", 70) ∷ ("bob", 37) ∷ []

transferred : execute_native_transfer "alice" "bob" 30 accounts ≡ ok paid
unfolding execute_native_transfer
transferred = refl

execute_native_transfer-supply_example : supply paid ≡ supply accounts
execute_native_transfer-supply_example =
    execute_native_transfer-supply "alice" "bob" 30 accounts paid transferred (omega arith)

execute_native_transfer_moves_example :
    (30 ≤ lookup_or "alice" 0 accounts)
    × (lookup_or "alice" 0 paid ≡ 100 - 30)
    × (lookup_or "bob" 0 paid ≡ 7 + 30)
    × (lookup "carol" paid ≡ lookup "carol" accounts)
execute_native_transfer_moves_example =
    execute_native_transfer_moves "alice" "bob" 30 accounts paid transferred (omega arith) "carol"
      (apart "alice" "bob" refl) (apart "carol" "alice" refl) (apart "carol" "bob" refl)

select_lurosonie_relay_leader-weighted_pick_example :
    (v : RelayValidator) × (weighted_pick
        (random_seed 77 none % power_sum toy_validators)
        toy_validators
      ≡ some (select_lurosonie_relay_leader 77 none toy_validators, v))
    × (0 < v.total_power)
select_lurosonie_relay_leader-weighted_pick_example =
    select_lurosonie_relay_leader-weighted_pick 77 none toy_validators (omega arith) (omega arith)
