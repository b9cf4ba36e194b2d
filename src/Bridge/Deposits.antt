-- ===== src/Bridge/Deposits.antt =====
-- crates/vuc-bridge/src/lib.rs: construction, block anchors, registration of deposits and the
-- watcher. `none` of a deposit operation is a task that waits for ever on the deposits lock.
use slura_chain.Base.{
  ℕ, zero, suc, ◌%◌, ◌^◌, String, Option, none, some, List, [], ◌∷◌, Bool, true, false, leb, ltb,
  ◌==◌, string_eq, if◌then◌else◌, keep,
}
use slura_chain.Base.Map.{Map, lookup, insert, values}
use slura_chain.Base.Outcome.{Result, ok, err, ◌>>=◌, and_then}
use slura_chain.Base.Lock.{RwLock}
use slura_chain.Base.Text.{join}
use slura_chain.Bridge.Types.{
  NetworkType, DepositStatus, pending, confirmed, minted, failed, BtcDeposit, BitcoinBlockAnchor,
  BitcoinBridge, RpcError, TxOutput, TxReply, Rpc, Host,
}

abbrev pub unwrap_or {ℓ} : {A : Type ℓ} → Option A → A → A
unwrap_or none d = d
unwrap_or (some a) d = a

-- `BitcoinBridge::new`
unfoldable pub new : Host → String → NetworkType → BitcoinBridge
new h api_key network = record {
  api_key = api_key;
  network = network;
  deposits = [];
  vez_contract = "";
  bridge_address = "";
  last_btc_height = 0;
  persistent_path = unwrap_or h.btc_bridge_db ".slura_btc_bridge.json";
}

unfoldable pub get_bridge_address : Host → String
get_bridge_address h =
    unwrap_or h.btc_bridge_address "bc1qexample1234567890abcdefghijklmnopqrstuvwxyz"

unfoldable pub set_vez_contract : String → BitcoinBridge → BitcoinBridge
set_vez_contract address b = record b { vez_contract = address }

unfoldable pub set_bridge_address : String → BitcoinBridge → BitcoinBridge
set_bridge_address address b = record b { bridge_address = address }

-- The hash of the block below, where there is one.
abbrev pub previous_hash : Rpc → ℕ → Result (Option String) RpcError
previous_hash rpc zero = ok none
previous_hash rpc (suc below) = do hash ← rpc.get_block_hash below; ok (some hash)

unfoldable pub get_block_data : Rpc → ℕ → Result (String × List String) RpcError
get_block_data rpc height = do
  block_hash ← rpc.get_block_hash height
  txids ← rpc.get_block_txs block_hash
  ok (block_hash, txids)

unfoldable pub get_block_anchor : Rpc → ℕ → Result BitcoinBlockAnchor RpcError
get_block_anchor rpc height = do
  block_hash ← rpc.get_block_hash height
  txids ← rpc.get_block_txs block_hash
  previous_block_hash ← previous_hash rpc height
  ok (record {
    height = height;
    block_hash = block_hash;
    previous_block_hash = previous_block_hash;
    txids = txids;
    merkle_root = rpc.get_block_merkle_root block_hash;
  })

abbrev pub drop_bytes : ℕ → List ℕ → List ℕ
drop_bytes zero bytes = bytes
drop_bytes (suc n) [] = []
drop_bytes (suc n) (b ∷ bytes) = drop_bytes n bytes

unfoldable pub generate_evm_address : Host → String → String
generate_evm_address h btc_address =
    join "0x" (h.hex_encode (drop_bytes 12 (h.sha3_256 btc_address)))

abbrev pub set_minted : Option BtcDeposit → String → Map String BtcDeposit → Map String BtcDeposit
set_minted none txid deposits = deposits
set_minted (some d) txid deposits = insert txid (record d { status = minted }) deposits

module _ (L : RwLock) where
  -- The deposits lock is passed on as the caller holds it.
  unfoldable pub mint_vez_for_deposit : L.Lock → String → BitcoinBridge → Option BitcoinBridge
  mint_vez_for_deposit held txid b =
      if b.vez_contract == ""
      then some b
      else and_then (L.write held)
          λ _. some (record b { deposits = set_minted (lookup txid b.deposits) txid b.deposits })

  unfoldable pub register_deposit :
      Host → String → ℕ → String → ℕ → Option ℕ → BitcoinBridge → Option BitcoinBridge
  register_deposit h txid amount sender confirmations block_height b =
      and_then (L.write L.unlocked) λ held.
        let deposit : BtcDeposit = record {
          txid = txid;
          amount_satoshi = amount;
          sender_btc = sender;
          recipient_evm = generate_evm_address h sender;
          confirmations = confirmations;
          status = if leb 6 confirmations then confirmed else pending;
          fee_satoshi = 0;
          block_hash = none;
          block_height = block_height;
          merkle_proof = none;
        } in
        let stored : BitcoinBridge = record b { deposits = insert txid deposit b.deposits } in
        if leb 6 confirmations then mint_vez_for_deposit held txid stored else some stored

  -- One entry of `vout`.
  abbrev pub check_output :
      Host → String → ℕ → Option String → ℕ → BitcoinBridge → Option BitcoinBridge
  check_output h txid confirmations none amount b = some b
  check_output h txid confirmations (some addr) amount b =
      if addr == get_bridge_address h
      then register_deposit h txid amount addr confirmations none b
      else some b

  -- The loop over `vout`.
  unfoldable pub check_outputs :
      Host → String → ℕ → List TxOutput → BitcoinBridge → Option BitcoinBridge
  check_outputs h txid confirmations [] b = some b
  check_outputs h txid confirmations (output ∷ rest) b =
      and_then (check_output h txid confirmations output.address (unwrap_or output.value 0) b)
        (check_outputs h txid confirmations rest)

  abbrev pub check_reply :
      Host → String → Result TxReply RpcError → BitcoinBridge → Option BitcoinBridge
  check_reply h txid (err e) b = some b
  check_reply h txid (ok tx) b =
      check_outputs h txid (unwrap_or tx.confirmations 0 % 2 ^ 32) (unwrap_or tx.vout []) b

  unfoldable pub check_deposit : Host → Rpc → String → BitcoinBridge → Option BitcoinBridge
  check_deposit h rpc txid b = check_reply h txid (rpc.get_transaction txid) b

  unfoldable pub check_deposits : Host → Rpc → List String → BitcoinBridge → Option BitcoinBridge
  check_deposits h rpc [] b = some b
  check_deposits h rpc (txid ∷ txids) b =
      and_then (check_deposit h rpc txid b) (check_deposits h rpc txids)

  abbrev pub check_txids :
      Host → Rpc → Result (List String) RpcError → BitcoinBridge → Option BitcoinBridge
  check_txids h rpc (err e) b = some b
  check_txids h rpc (ok txids) b = check_deposits h rpc txids b

  unfoldable pub process_new_block : Host → Rpc → ℕ → BitcoinBridge → Option BitcoinBridge
  process_new_block h rpc height b =
      check_txids h rpc (rpc.get_block_hash height >>= rpc.get_block_txs) b

  -- The body of the loop of `watch_blocks`: the height that the loop remembers, and the bridge.
  abbrev pub watch_reply :
      Host → Rpc → Result ℕ RpcError → ℕ × BitcoinBridge → Option (ℕ × BitcoinBridge)
  watch_reply h rpc (err e) (last_height, b) = some (last_height, b)
  watch_reply h rpc (ok height) (last_height, b) =
      if ltb last_height height
      then and_then (process_new_block h rpc height (record b { last_btc_height = height }))
          (λ b'. some (height, b'))
      else some (last_height, b)

  unfoldable pub watch_blocks_step : Host → Rpc → ℕ × BitcoinBridge → Option (ℕ × BitcoinBridge)
  watch_blocks_step h rpc s = watch_reply h rpc rpc.get_blockcount s

abbrev pub is_pending : DepositStatus → Bool
is_pending pending = true
is_pending confirmed = true
is_pending minted = false
is_pending failed = false

unfoldable pub get_pending_deposits : BitcoinBridge → List BtcDeposit
get_pending_deposits b = keep (λ d. is_pending d.status) (values b.deposits)
