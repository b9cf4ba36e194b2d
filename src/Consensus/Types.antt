-- ===== src/Consensus/Types.antt =====
-- The data of crates/vuc-platform/src/consensus/lurosonie_manager.rs, `TxRequest` of
-- slurachain_rpc_service.rs, `TimestampRelease` of crates/vuc-events, and the code outside the
-- manager that it calls. A JSON value that is only carried is kept as its text.
use slura_chain.Base.{ℕ, String, Option, List, Bool}
use slura_chain.Base.Map.{Map}
use slura_chain.Base.Outcome.{Result}
use slura_chain.Storage.{Rocks}
use slura_chain.Bridge.{BitcoinBlockAnchor, BitcoinBridge}

pub record TxRequest : Type 0 where
  pub from_op : String
  pub receiver_op : String
  pub value_tx : String
  pub nonce_tx : ℕ
  pub hash : String
  pub contract_addr : Option String
  pub function_name : Option String
  pub arguments : Option (List String)

-- The timestamp is in seconds since the epoch.
pub record TimestampRelease : Type 0 where
  pub timestamp : ℕ
  pub log : String
  pub block_number : ℕ
  pub vyfties_id : String

pub record BlockData : Type 0 where
  pub block : TimestampRelease
  pub transactions : List TxRequest
  pub validator : String
  pub contract_states : Map String (List ℕ)
  pub execution_results : Map String String
  pub relay_power : ℕ
  pub delegated_stake : ℕ
  pub is_system_block : Bool
  pub bitcoin_anchor : Option BitcoinBlockAnchor
  pub parent_slura_hash : Option String

pub record RelayValidator : Type 0 where
  pub address : String
  pub stake : ℕ
  pub delegated_stake : ℕ
  pub total_power : ℕ
  pub is_active : Bool
  pub relay_count : ℕ
  pub last_relay_time : ℕ
  pub is_system : Bool

pub record StakeDelegation : Type 0 where
  pub delegator : String
  pub validator : String
  pub amount : ℕ
  pub timestamp : ℕ

abbrev pub lurosonie_min_relay_stake : ℕ
lurosonie_min_relay_stake = 30000

abbrev pub lurosonie_system_validator : String
lurosonie_system_validator = "0x53ae54b11251d5003e9aa51422405bc35a2ef32d"

-- The `Err` strings of the manager, one constructor for each place that makes one; and `waiting`,
-- which is no string: the call does not come back, since it waits for ever to send a block.
pub data Error : Type 0 where
  insufficient_power : ℕ → ℕ → ℕ → Error
  unknown_validator : String → Error
  insufficient_stake : ℕ → ℕ → Error
  insufficient_balance : ℕ → ℕ → Error
  may_not_produce : String → Error
  vm_failed invalid_relay_master serialization bridge_not_configured bridge_failed db_failed
        bad_height waiting :
      Error

-- The JSON objects that are serialised to be hashed: the whole block of
-- `add_lurosonie_block_to_chain`, the shorter object of `get_block_by_hash` and
-- `get_all_block_hashes`, and the bare release of `add_block_to_chain`.
pub data Document : Type 0 where
  chain_document :
      TimestampRelease
      → ℕ
      → ℕ
      → String
      → ℕ
      → ℕ
      → Option BitcoinBlockAnchor
      → Option String
      → Document
  lookup_document : TimestampRelease → ℕ → ℕ → String → Document
  release_document : TimestampRelease → Document

-- The arguments that the manager passes to a contract.
pub data Argument : Type 0 where
  text : String → Argument
  number : ℕ → Argument

-- What the manager calls: the virtual machine, serde_json, the SHA3 crate and RocksDB.
pub record Env : Type 1 where
  pub rocks : Rocks
  pub Vm : Type 0
  pub Json : Type 0
  pub as_u64 : Json → Option ℕ
  pub address_map : Vm → String → Option String
  pub set_storage_manager : Vm → Vm
  pub execute_module : Vm → String → String → List Argument → Option String → Result Json Error × Vm
  pub load_complete_contract_state : Vm → String → Result (List ℕ) Error
  pub to_string : Document → Option String
  pub sha3_hex : String → String
  pub eq_ignore_ascii_case : String → String → Bool
  pub hex_encode : List ℕ → String
  pub encode_block : BlockData → Option String
  pub decode_block : String → Option BlockData
  pub encode_height : ℕ → String
  pub decode_height : String → Option ℕ

-- The capacity of the channel that the program makes for `block_sender`.
abbrev pub block_channel_size : ℕ
block_channel_size = 100

-- `LurosonieManager`. The channels are the lists of what was sent on them. The receiver of the
-- blocks is kept for the life of the program, and nothing reads it.
pub record Manager (E : Env) : Type 0 where
  pub epoch_id : ℕ
  pub committee : List String
  pub balances : Map String ℕ
  pub storage : E.rocks.Db
  pub block_sender : List TimestampRelease
  pub pending_transactions : Map String TxRequest
  pub block_counts : Map String ℕ
  pub vm : E.Vm
  pub last_block_hash : Option String
  pub validators : List String
  pub slurachain_data : List BlockData
  pub current_validator_index : ℕ
  pub block_time_ms : ℕ
  pub relay_validators : Map String RelayValidator
  pub delegations : List StakeDelegation
  pub min_relay_stake : ℕ
  pub relay_round_duration : ℕ
  pub current_relay_leader : Option String
  pub total_vez_supply : ℕ
  pub is_decentralized : Bool
  pub mempool_tx_sender : List TxRequest
  pub btc_bridge : Option BitcoinBridge
  pub last_btc_height : ℕ
