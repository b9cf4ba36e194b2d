-- ===== src/Bridge/Minting.antt =====
-- Consequences for every deposit that `watch_blocks` registers.
use slura_chain.Base.{
  ℕ, ◌≡◌, ◌≢◌, refl, All, List, String, none, some, All-trivial, arith, leb, string_eq,
  if◌then◌else◌,
}
use slura_chain.Base.Map.{Entries, insert-Entries, Map, lookup, insert, lookup-insert}
use slura_chain.Base.Outcome.{ok}
use slura_chain.Base.Lock.{RwLock, RwLockLaws}
use slura_chain.Bridge.Types.{BtcDeposit, BitcoinBridge, Rpc, Host, pending, confirmed, minted}
use slura_chain.Bridge.Deposits.{get_bridge_address, generate_evm_address, watch_blocks_step}
use slura_chain.Bridge.Registration.{stored}
use slura_chain.Bridge.Watcher.{watch_blocks_step-keeps}

-- A deposit as the watcher leaves it: its status follows from its confirmations and is not
-- `minted`, and its recipient is derived from the address of the bridge.
pub record IsWatched (h : Host) (key : String) (d : BtcDeposit) : Type 0 where
  pub own_txid : d.txid ≡ key
  pub own_recipient : d.recipient_evm ≡ generate_evm_address h (get_bridge_address h)
  pub own_status : d.status ≡ (if leb 6 d.confirmations then confirmed else pending)
  pub not_minted : d.status ≢ minted

abbrev pub AllWatched : Host → Map String BtcDeposit → Type 0
AllWatched h m = Entries (IsWatched h) m

stored-IsWatched :
    (h : Host) (txid : String) (amount confirmations : ℕ)
    → IsWatched h txid (stored h txid amount (get_bridge_address h) confirmations none)
stored-IsWatched h txid amount confirmations = ground arith

insert-AllWatched :
    (h : Host) (txid : String) (amount confirmations : ℕ) (m : Map String BtcDeposit)
    → AllWatched h m
    → AllWatched h (insert txid (stored h txid amount (get_bridge_address h) confirmations none) m)
insert-AllWatched h txid amount confirmations m all =
    insert-Entries (IsWatched h) txid
      (stored h txid amount (get_bridge_address h) confirmations none) m
      (stored-IsWatched h txid amount confirmations) all

-- Whatever the node answers, a poll of the watcher that returns keeps every deposit unminted,
-- with the status that its confirmations give and with the recipient derived from the address of
-- the bridge.
pub watch_blocks_step-AllWatched :
    (L : RwLock) (laws : RwLockLaws L) (h : Host) (rpc : Rpc) (last_height last_height' : ℕ)
    (b b' : BitcoinBridge)
    → watch_blocks_step L h rpc (last_height, b) ≡ some (last_height', b')
    → AllWatched h b.deposits
    → AllWatched h b'.deposits
watch_blocks_step-AllWatched L laws h rpc last_height last_height' b b' e all =
    watch_blocks_step-keeps L laws h (AllWatched h) (λ txid. Unit {0})
      (λ txid amount confirmations m allowed. insert-AllWatched h txid amount confirmations m) rpc
      last_height last_height' b b' (λ height hash txids q r t. All-trivial txids) e all

-- A poll of the watcher that returns leaves the deposit under an id as it was, if the id is not
-- among the transactions of the newest block, however far the height has moved.
pub watch_blocks_step-others :
    (L : RwLock) (laws : RwLockLaws L) (h : Host) (rpc : Rpc) (last_height last_height' : ℕ)
    (b b' : BitcoinBridge) (key : String)
    → ((height : ℕ) (hash : String) (txids : List String)
        → rpc.get_blockcount ≡ ok height
        → rpc.get_block_hash height ≡ ok hash
        → rpc.get_block_txs hash ≡ ok txids
        → All (λ txid. txid ≢ key) txids)
    → watch_blocks_step L h rpc (last_height, b) ≡ some (last_height', b')
    → lookup key b'.deposits ≡ lookup key b.deposits
watch_blocks_step-others L laws h rpc last_height last_height' b b' key absent e =
    watch_blocks_step-keeps L laws h (λ m. lookup key m ≡ lookup key b.deposits)
      (λ txid. txid ≢ key)
      (λ txid amount confirmations m other same.
        insert-other txid amount confirmations m other same)
      rpc last_height last_height' b b' absent e refl
  where
    insert-other :
        (txid : String) (amount confirmations : ℕ) (m : Map String BtcDeposit)
        → txid ≢ key
        → lookup key m ≡ lookup key b.deposits
        → lookup key
            (insert txid (stored h txid amount (get_bridge_address h) confirmations none) m)
          ≡ lookup key b.deposits
    insert-other txid amount confirmations m other same =
        rw lookup-insert (ground (arith, string_eq.beq_iff txid key))
