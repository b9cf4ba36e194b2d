-- ===== src/Bridge/Outputs.antt =====
-- A transaction with several outputs: `check_deposit` stores every matching output under the one
-- transaction id, so a later output replaces an earlier one.
use slura_chain.Base.{
  ℕ, ◌≡◌, inl, inr, String, Option, none, some, List, [], ◌∷◌, Bool, false, ◌==◌, string_eq,
  if◌then◌else◌, arith, Bool-cases,
}
use slura_chain.Base.Map.{lookup, lookup-insert_self}
use slura_chain.Base.Lock.{RwLock, RwLockLaws}
use slura_chain.Bridge.Types.{BtcDeposit, BitcoinBridge, TxOutput, Host}
use slura_chain.Bridge.Deposits.{
  get_bridge_address, unwrap_or, register_deposit, check_output, check_outputs,
}
use slura_chain.Bridge.Registration.{stored, register_deposit-deposits}
use slura_chain.Bridge.Watcher.{and_then-eq_some}

-- The output pays the bridge.
abbrev pays : Host → Option String → Bool
pays h none = false
pays h (some addr) = addr == get_bridge_address h

-- The value of the last output that pays the bridge.
abbrev pub last_paid : Host → List TxOutput → Option ℕ
last_paid h [] = none
last_paid h (output ∷ rest) = elim (last_paid h rest) [
  | some amount ↦ some amount
  | none ↦ if pays h output.address then some (unwrap_or output.value 0) else none
]

-- The deposit under the transaction's id, once its outputs have been seen.
abbrev pub deposit_after : Host → String → ℕ → Option ℕ → Option BtcDeposit → Option BtcDeposit
deposit_after h txid confirmations none before = before
deposit_after h txid confirmations (some amount) before =
    some (stored h txid amount (get_bridge_address h) confirmations none)

module _ (L : RwLock) (laws : RwLockLaws L) (h : Host) (txid : String) (confirmations : ℕ) where
  lookup-check_output :
      (address : Option String) (amount : ℕ) (b b' : BitcoinBridge)
      → check_output L h txid confirmations address amount b ≡ some b'
      → lookup txid b'.deposits
        ≡ deposit_after h txid confirmations
            (if pays h address then some amount else none)
            (lookup txid b.deposits)
  lookup-check_output none amount b b' e = let same : b ≡ b' = cc in cc same
  lookup-check_output (some addr) amount b b' e = elim (Bool-cases (addr == get_bridge_address h)) [
    | inl same ↦ rw same (registered ((string_eq.beq_iff _ _).0 same) (rw same at e))
    | inr other ↦ rw other (unchanged (rw other at e))
  ]
    where
      unchanged : some b ≡ some b' → lookup txid b'.deposits ≡ lookup txid b.deposits
      unchanged q = let same : b ≡ b' = cc in cc same

      registered :
          addr ≡ get_bridge_address h
          → register_deposit L h txid amount addr confirmations none b ≡ some b'
          → lookup txid b'.deposits
            ≡ some (stored h txid amount (get_bridge_address h) confirmations none)
      registered same q =
          rw (register_deposit-deposits L laws h txid amount addr confirmations none b b' q)
            (rw same (lookup-insert_self txid _ b.deposits))

  -- When the outputs of a transaction have been gone through, the deposit under its id has the
  -- value of the last output that pays the bridge, whatever the other outputs paid; with no such
  -- output it is what it was.
  pub lookup-check_outputs :
      (outputs : List TxOutput) (b b' : BitcoinBridge)
      → check_outputs L h txid confirmations outputs b ≡ some b'
      → lookup txid b'.deposits
        ≡ deposit_after h txid confirmations (last_paid h outputs) (lookup txid b.deposits)
  unfolding check_outputs
  lookup-check_outputs [] b b' e = let same : b ≡ b' = cc in cc same
  lookup-check_outputs (output ∷ rest) b b' e =
      let (b'', first, later) = and_then-eq_some _ _ e in
      let ih : lookup txid b'.deposits
          ≡ deposit_after h txid confirmations (last_paid h rest) (lookup txid b''.deposits) =
        lookup-check_outputs rest b'' b' later in
      let one : lookup txid b''.deposits
          ≡ deposit_after h txid confirmations
              (if pays h output.address then some (unwrap_or output.value 0) else none)
              (lookup txid b.deposits) =
        lookup-check_output output.address _ b b'' first in
      ground (arith, ih, one)
