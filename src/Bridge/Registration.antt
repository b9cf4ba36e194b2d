-- ===== src/Bridge/Registration.antt =====
-- Registration of deposits: what a call stores, when it waits for ever, and what holds of every
-- deposit that the watcher registers.
use slura_chain.Base.{
  ℕ, ◌<◌, ◌≤◌, ◌≡◌, ◌≢◌, ◌⊎◌, inl, inr, String, Option, none, some, false, not, ◌&&◌, leb, ◌==◌,
  string_eq, if◌then◌else◌, arith, Bool-cases,
}
use slura_chain.Base.Map.{insert}
use slura_chain.Base.Lock.{RwLock, RwLockLaws}
use native.Mathlib.Decide.{dec_lt}
use slura_chain.Bridge.Types.{BtcDeposit, BitcoinBridge, Host, pending, confirmed}
use slura_chain.Bridge.Deposits.{generate_evm_address, mint_vez_for_deposit, register_deposit}

-- The deposit that `register_deposit` stores.
abbrev pub stored : Host → String → ℕ → String → ℕ → Option ℕ → BtcDeposit
stored h txid amount sender confirmations block_height = record {
  txid = txid;
  amount_satoshi = amount;
  sender_btc = sender;
  recipient_evm = generate_evm_address h sender;
  confirmations = confirmations;
  status = if leb 6 confirmations then confirmed else pending;
  fee_satoshi = 0;
  block_hash = none;
  block_height = block_height;
  merkle_proof = none;
}

module _ (L : RwLock) (laws : RwLockLaws L) (h : Host) where
  -- Below six confirmations, or with no contract set, the deposit is stored under its id.
  pub register_deposit_stores :
      (txid : String) (amount : ℕ) (sender : String) (confirmations : ℕ) (block_height : Option ℕ)
      (b : BitcoinBridge)
      → (confirmations < 6) ⊎ (b.vez_contract ≡ "")
      → register_deposit L h txid amount sender confirmations block_height b
        ≡ some (record b {
          deposits =
              insert txid (stored h txid amount sender confirmations block_height) b.deposits;
        })
  unfolding register_deposit mint_vez_for_deposit
  register_deposit_stores txid amount sender confirmations block_height b (inl few) =
      rw laws.write_unlocked (ground arith)
  register_deposit_stores txid amount sender confirmations block_height b (inr unset) =
      rw laws.write_unlocked (ground (arith, (string_eq.beq_iff b.vez_contract "").1 unset))

  -- From six confirmations on, with a contract set, the call waits for the lock that it holds.
  pub register_deposit_waits :
      (txid : String) (amount : ℕ) (sender : String) (confirmations : ℕ) (block_height : Option ℕ)
      (b : BitcoinBridge)
      → 6 ≤ confirmations
      → b.vez_contract ≢ ""
      → register_deposit L h txid amount sender confirmations block_height b ≡ none
  unfolding register_deposit mint_vez_for_deposit
  register_deposit_waits txid amount sender confirmations block_height b many set =
      rw laws.write_unlocked
        (ground (arith, laws.write_write_held, string_eq.beq_iff b.vez_contract ""))

  -- A registration stores the deposit under its id, with the status that its confirmations give, and
  -- changes nothing else; but from six confirmations on, with a contract set, it never returns,
  -- since it then asks for the deposits lock that it holds.
  pub register_deposit_outcome :
      (txid : String) (amount : ℕ) (sender : String) (confirmations : ℕ) (block_height : Option ℕ)
      (b : BitcoinBridge)
      → register_deposit L h txid amount sender confirmations block_height b ≡ (
          if leb 6 confirmations && not (b.vez_contract == "")
          then none
          else some (record b {
            deposits =
                insert txid (stored h txid amount sender confirmations block_height) b.deposits;
          }))
  unfolding register_deposit mint_vez_for_deposit
  register_deposit_outcome txid amount sender confirmations block_height b =
      rw laws.write_unlocked (ground (arith, laws.write_write_held))

  -- What a registration that returns has done: it has stored the deposit, and nothing else.
  pub register_deposit-deposits :
      (txid : String) (amount : ℕ) (sender : String) (confirmations : ℕ) (block_height : Option ℕ)
      (b b' : BitcoinBridge)
      → register_deposit L h txid amount sender confirmations block_height b ≡ some b'
      → b'.deposits
        ≡ insert txid (stored h txid amount sender confirmations block_height) b.deposits
  register_deposit-deposits txid amount sender confirmations block_height b b' e =
      elim (dec_lt confirmations 6) [
        | yes few ↦ done (inl few)
        | no many ↦ elim (Bool-cases (b.vez_contract == "")) [
          | inl unset ↦ done (inr ((string_eq.beq_iff _ _).0 unset))
          | inr set ↦ absurd (waits (omega arith) (λ p. unset_false set p))
        ]
      ]
    where
      done :
          (confirmations < 6) ⊎ (b.vez_contract ≡ "")
          → b'.deposits
            ≡ insert txid (stored h txid amount sender confirmations block_height) b.deposits
      done c = cc (e, register_deposit_stores txid amount sender confirmations block_height b c)

      unset_false : (b.vez_contract == "") ≡ false → b.vez_contract ≡ "" → ⊥
      unset_false set p = cc (set, (string_eq.beq_iff b.vez_contract "").1 p)

      waits : 6 ≤ confirmations → b.vez_contract ≢ "" → ⊥
      waits many set =
          cc (e, register_deposit_waits txid amount sender confirmations block_height b many set)
