-- ===== src/Consensus/Ledger.antt =====
-- Native balances: `update_balance`, `validate_transaction` and `execute_native_transfer`.
pub mod Transfer
pub mod Validate
use slura_chain.Base.{
  ℕ, ◌-◌, String, Bool, false, Option, none, some, string_eq, ltb, leb, if◌then◌else◌,
}
use slura_chain.Base.Map.{Map, lookup, lookup_or, insert}
use slura_chain.Base.Word.{wrapping_add}
use slura_chain.Base.Outcome.{Result, ok, err, and_then}
use slura_chain.Base.Lock.{RwLock}
use slura_chain.Base.Text.{parse_u64}
use slura_chain.Consensus.Types.{TxRequest, Error, insufficient_balance}

unfoldable pub execute_native_transfer :
    String → String → ℕ → Map String ℕ → Result (Map String ℕ) Error
execute_native_transfer from to amount balances =
    let from_balance = lookup_or from 0 balances in
    let debited = insert from (from_balance - amount) balances in
    let credited = insert to (wrapping_add (lookup_or to 0 debited) amount) debited in
    if ltb from_balance amount then err (insufficient_balance from_balance amount) else ok credited

-- `tx.value_tx.parse::<u64>().unwrap_or(0)`
abbrev pub value_of : TxRequest → ℕ
value_of tx = elim (parse_u64 tx.value_tx) [ none ↦ 0 | some n ↦ n ]

module _ (L : RwLock) where
  -- The balances lock is passed on as the caller holds it; `none` is a call that waits for ever.
  unfoldable pub update_balance : L.Lock → String → ℕ → Map String ℕ → Option (Map String ℕ)
  update_balance held account amount balances =
      and_then (L.write held) λ _. some (insert account amount balances)

  abbrev pub validate_balance :
      L.Lock → TxRequest → Option ℕ → Map String ℕ → Option (Bool × Map String ℕ)
  validate_balance held tx (some balance) balances = some (leb (value_of tx) balance, balances)
  validate_balance held tx none balances =
      and_then (update_balance held tx.from_op 0 balances) λ balances'. some (false, balances')

  -- The read guard of `balances` is alive in both branches.
  unfoldable pub validate_transaction : TxRequest → Map String ℕ → Option (Bool × Map String ℕ)
  unfolding update_balance
  validate_transaction tx balances =
      and_then (L.read L.unlocked)
        λ held. validate_balance held tx (lookup tx.from_op balances) balances
