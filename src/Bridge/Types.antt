-- ===== src/Bridge/Types.antt =====
-- crates/vuc-bridge/src/lib.rs: the data of the bridge, and what its JSON-RPC client answers.
use slura_chain.Base.{ℕ, String, Option, List}
use slura_chain.Base.Map.{Map}
use slura_chain.Base.Outcome.{Result}

pub data NetworkType : Type 0 where
  mainnet testnet devnet : NetworkType

pub data DepositStatus : Type 0 where
  pending confirmed minted failed : DepositStatus

pub record BtcDeposit : Type 0 where
  pub txid : String
  pub amount_satoshi : ℕ
  pub sender_btc : String
  pub recipient_evm : String
  pub confirmations : ℕ
  pub status : DepositStatus
  pub fee_satoshi : ℕ
  pub block_hash : Option String
  pub block_height : Option ℕ
  pub merkle_proof : Option (List String)

pub record BitcoinBlockAnchor : Type 0 where
  pub height : ℕ
  pub block_hash : String
  pub previous_block_hash : Option String
  pub txids : List String
  pub merkle_root : Option String

pub record BitcoinBridge : Type 0 where
  pub api_key : String
  pub network : NetworkType
  pub deposits : Map String BtcDeposit
  pub vez_contract : String
  pub bridge_address : String
  pub last_btc_height : ℕ
  pub persistent_path : String

-- `reqwest` and the remote node: a call fails, or answers with a value of the expected shape.
pub data RpcError : Type 0 where
  http json invalid_result : RpcError

-- One entry of `result.vout`: the first address of its script, and its value where that is an
-- unsigned integer.
pub record TxOutput : Type 0 where
  pub address : Option String
  pub value : Option ℕ

-- The answer to `gettransaction`, as far as the code reads it.
pub record TxReply : Type 0 where
  pub vout : Option (List TxOutput)
  pub confirmations : Option ℕ

pub record Rpc : Type 0 where
  pub get_blockcount : Result ℕ RpcError
  pub get_block_hash : ℕ → Result String RpcError
  pub get_block_txs : String → Result (List String) RpcError
  pub get_block_merkle_root : String → Option String
  pub get_transaction : String → Result TxReply RpcError

-- The process environment and the SHA3 and hex crates.
pub record Host : Type 0 where
  pub btc_bridge_db : Option String
  pub btc_bridge_address : Option String
  pub sha3_256 : String → List ℕ
  pub hex_encode : List ℕ → String
