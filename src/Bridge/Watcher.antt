-- ===== src/Bridge/Watcher.antt =====
-- What holds of the deposits that the Bitcoin watcher registers, whatever the node answers.
use slura_chain.Base.{
  ℕ, ◌≡◌, refl, inl, inr, String, Option, none, some, List, [], ◌∷◌, ◌==◌, string_eq, Bool-cases,
  All, ltb,
}
use mathlib.Core.Path.{subst}
use slura_chain.Base.Map.{Map, insert}
use slura_chain.Base.Outcome.{Result, ok, err, and_then, Result-cases}
use slura_chain.Base.Lock.{RwLock, RwLockLaws}
use slura_chain.Bridge.Types.{BtcDeposit, BitcoinBridge, TxOutput, Rpc, RpcError, Host}
use slura_chain.Bridge.Deposits.{
  get_bridge_address, register_deposit, check_outputs, check_output, check_deposit, check_deposits,
  process_new_block, watch_reply, watch_blocks_step,
}
use slura_chain.Bridge.Registration.{stored, register_deposit-deposits}

pub and_then-eq_some {ℓ κ} :
    {A : Type ℓ} {B : Type κ} (m : Option A) (f : A → Option B) {b : B}
    → and_then m f ≡ some b
    → (a : A) × (m ≡ some a) × (f a ≡ some b)
and_then-eq_some none f e = cc
and_then-eq_some (some a) f e = (a, refl, e)

-- A property of the deposits that every registration of an allowed transaction keeps.
module _ (L : RwLock) (laws : RwLockLaws L) (h : Host) (P : Map String BtcDeposit → Type 0)
    (Allowed : String → Type 0)
    (keeps : (txid : String) (amount confirmations : ℕ) (m : Map String BtcDeposit)
      → Allowed txid
      → P m
      → P (insert txid (stored h txid amount (get_bridge_address h) confirmations none) m)) where
  unchanged : (b b' : BitcoinBridge) → some b ≡ some b' → P b.deposits → P b'.deposits
  unchanged b b' e p = let same : b ≡ b' = cc in subst (λ (c : BitcoinBridge). P c.deposits) same p

  check_output-keeps :
      (txid : String) (confirmations : ℕ) (address : Option String) (amount : ℕ)
      (b b' : BitcoinBridge)
      → Allowed txid
      → check_output L h txid confirmations address amount b ≡ some b'
      → P b.deposits
      → P b'.deposits
  check_output-keeps txid confirmations none amount b b' a e p = unchanged b b' e p
  check_output-keeps txid confirmations (some addr) amount b b' a e p =
      elim (Bool-cases (addr == get_bridge_address h)) [
        | inl same ↦ registered ((string_eq.beq_iff _ _).0 same) (rw same at e)
        | inr other ↦ unchanged b b' (rw other at e) p
      ]
    where
      registered :
          addr ≡ get_bridge_address h
          → register_deposit L h txid amount addr confirmations none b ≡ some b'
          → P b'.deposits
      registered same q =
          rw (register_deposit-deposits L laws h txid amount addr confirmations none b b' q)
            (rw same (keeps txid amount confirmations b.deposits a p))

  check_outputs-keeps :
      (txid : String) (confirmations : ℕ) (outputs : List TxOutput) (b b' : BitcoinBridge)
      → Allowed txid
      → check_outputs L h txid confirmations outputs b ≡ some b'
      → P b.deposits
      → P b'.deposits
  unfolding check_outputs
  check_outputs-keeps txid confirmations [] b b' a e p = unchanged b b' e p
  check_outputs-keeps txid confirmations (output ∷ rest) b b' a e p =
      let (b'', first, later) = and_then-eq_some _ _ e in
      check_outputs-keeps txid confirmations rest b'' b' a later
        (check_output-keeps txid confirmations output.address _ b b'' a first p)

  check_deposit-keeps :
      (rpc : Rpc) (txid : String) (b b' : BitcoinBridge)
      → Allowed txid
      → check_deposit L h rpc txid b ≡ some b'
      → P b.deposits
      → P b'.deposits
  unfolding check_deposit
  check_deposit-keeps rpc txid b b' a e p = elim (Result-cases (rpc.get_transaction txid)) [
    | inl (tx, q) ↦ check_outputs-keeps txid _ _ b b' a (rw q at e) p
    | inr (failure, q) ↦ unchanged b b' (rw q at e) p
  ]

  check_deposits-keeps :
      (rpc : Rpc) (txids : List String) (b b' : BitcoinBridge)
      → All Allowed txids
      → check_deposits L h rpc txids b ≡ some b'
      → P b.deposits
      → P b'.deposits
  unfolding check_deposits
  check_deposits-keeps rpc [] b b' a e p = unchanged b b' e p
  check_deposits-keeps rpc (txid ∷ txids) b b' a e p =
      let (b'', first, later) = and_then-eq_some _ _ e in
      check_deposits-keeps rpc txids b'' b' a.1 later
        (check_deposit-keeps rpc txid b b'' a.0 first p)

  process_new_block-keeps :
      (rpc : Rpc) (height : ℕ) (b b' : BitcoinBridge)
      → ((hash : String) (txids : List String)
          → rpc.get_block_hash height ≡ ok hash
          → rpc.get_block_txs hash ≡ ok txids
          → All Allowed txids)
      → process_new_block L h rpc height b ≡ some b'
      → P b.deposits
      → P b'.deposits
  unfolding process_new_block
  process_new_block-keeps rpc height b b' allowed e p =
      elim (Result-cases (rpc.get_block_hash height)) [
        | inr (failure, q) ↦ unchanged b b' (rw q at e) p
        | inl (hash, q) ↦ elim (Result-cases (rpc.get_block_txs hash)) [
          | inr (failure, r) ↦ unchanged b b' (rw (q, r) at e) p
          | inl (txids, r) ↦
              check_deposits-keeps rpc txids b b' (allowed hash txids q r) (rw (q, r) at e) p
        ]
      ]

  watched :
      {height last_height : ℕ} (b b' : BitcoinBridge)
      → ◌≡◌ {A = Option (ℕ × BitcoinBridge)} (some (height, b)) (some (last_height, b'))
      → P b.deposits
      → P b'.deposits
  watched b b' e p = let same : b ≡ b' = cc in subst (λ (c : BitcoinBridge). P c.deposits) same p

  watch_reply-keeps :
      (rpc : Rpc) (reply : Result ℕ RpcError) (last_height last_height' : ℕ) (b b' : BitcoinBridge)
      → ((height : ℕ) (hash : String) (txids : List String)
          → reply ≡ ok height
          → rpc.get_block_hash height ≡ ok hash
          → rpc.get_block_txs hash ≡ ok txids
          → All Allowed txids)
      → watch_reply L h rpc reply (last_height, b) ≡ some (last_height', b')
      → P b.deposits
      → P b'.deposits
  watch_reply-keeps rpc (err failure) last_height last_height' b b' allowed e p = watched b b' e p
  watch_reply-keeps rpc (ok height) last_height last_height' b b' allowed e p =
      elim (Bool-cases (ltb last_height height)) [
        | inr old ↦ watched b b' (rw old at e) p
        | inl new ↦
            let (b'', first, later) = and_then-eq_some _ _ (rw new at e) in
            watched b'' b' later (
              process_new_block-keeps rpc height (record b { last_btc_height = height }) b''
                (λ hash txids. allowed height hash txids refl) first p)
      ]

  -- A poll of the watcher keeps the property if the transactions of the block that the node calls
  -- its newest are allowed.
  pub watch_blocks_step-keeps :
      (rpc : Rpc) (last_height last_height' : ℕ) (b b' : BitcoinBridge)
      → ((height : ℕ) (hash : String) (txids : List String)
          → rpc.get_blockcount ≡ ok height
          → rpc.get_block_hash height ≡ ok hash
          → rpc.get_block_txs hash ≡ ok txids
          → All Allowed txids)
      → watch_blocks_step L h rpc (last_height, b) ≡ some (last_height', b')
      → P b.deposits
      → P b'.deposits
  unfolding watch_blocks_step
  watch_blocks_step-keeps rpc last_height last_height' b b' =
      watch_reply-keeps rpc rpc.get_blockcount last_height last_height' b b'
