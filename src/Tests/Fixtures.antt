-- ===== src/Tests/Fixtures.antt =====
-- A store, an environment, a manager, an engine and a bridge to try the theorems on.
use mathlib.Core.Path.{ap}
use slura_chain.Base.{
  ℕ, ◌+◌, ◌≡◌, ◌∙◌, sym, String, true, false, Option, none, some, List, [], ◌∷◌, ◌==◌, string_eq,
  if◌then◌else◌,
}
use slura_chain.Base.Map.{Map, lookup, insert, lookup-insert_self}
use slura_chain.Base.Outcome.{ok}
use slura_chain.Base.Text.{decimal, parse_u64}
use slura_chain.Storage.{SlurachainMetadata, DbResult, Rocks, RocksLaws}
use slura_chain.Bridge.{BitcoinBridge, Rpc, Host, new, testnet}
use slura_chain.Consensus.Types.{
  TxRequest, RelayValidator, StakeDelegation, Document, chain_document, lookup_document,
  release_document, Env, Manager,
}

abbrev pub toy_rocks : Rocks
toy_rocks = record {
  Db = Map String SlurachainMetadata;
  Bytes = SlurachainMetadata;
  get = λ d k. ok (lookup k d);
  put = λ d k b. ok (insert k b d);
  to_vec = λ m. ok m;
  from_slice = λ b. ok b;
}

get_after_put :
    (d d' : Map String SlurachainMetadata) (k : String) (b : SlurachainMetadata)
    → ◌≡◌ {A = DbResult (Map String SlurachainMetadata)} (ok (insert k b d)) (ok d')
    → lookup k d' ≡ some b
get_after_put d d' k b e =
    let same : insert k b d ≡ d' = cc e in
    ap (λ (x : Map String SlurachainMetadata). lookup k x) (sym same) ∙ lookup-insert_self k b d

pub toy_laws : RocksLaws toy_rocks
toy_laws = record {
  get_put = λ d d' k b e. ap (λ o. ok o) (get_after_put d d' k b e);
  decode_encode = λ m b e. ap (λ (r : DbResult SlurachainMetadata). r) (sym e);
}

abbrev pub toy_text : Document → Option String
toy_text (chain_document block power stake validator states txs anchor parent) = some "chain"
toy_text (lookup_document block power stake validator) = some "lookup"
toy_text (release_document block) = some "release"

abbrev pub toy_with : Option String → Env
toy_with encoded = record {
  rocks = toy_rocks;
  Vm = ℕ;
  Json = ℕ;
  as_u64 = λ n. some n;
  address_map = λ vm key. if key == "vezcur" then some "0xvez" else none;
  set_storage_manager = λ vm. vm;
  execute_module = λ vm contract function args sender. (ok 50000, vm + 1);
  load_complete_contract_state = λ vm contract. ok [];
  to_string = toy_text;
  sha3_hex = λ s. s;
  eq_ignore_ascii_case = λ a b. a == b;
  hex_encode = λ bytes. "00";
  encode_block = λ b. encoded;
  decode_block = λ s. none;
  encode_height = decimal;
  decode_height = parse_u64;
}

abbrev pub toy : Env
toy = toy_with (some "block")

abbrev pub toy_host : Host
toy_host = record {
  btc_bridge_db = none;
  btc_bridge_address = some "bc1bridge";
  sha3_256 = λ s. 1 ∷ 2 ∷ [];
  hex_encode = λ bytes. "ab";
}

abbrev pub toy_rpc : Rpc
toy_rpc = record {
  get_blockcount = ok 5;
  get_block_hash = λ height. ok (decimal height);
  get_block_txs = λ hash. ok ("tx1" ∷ []);
  get_block_merkle_root = λ hash. none;
  get_transaction = λ txid. ok (record {
    vout = some (
        record { address = some "bc1bridge"; value = some 70 }
        ∷ record { address = some "bc1bridge"; value = some 30 }
        ∷ []);
    confirmations = some 1;
  });
}

abbrev pub toy_bridge : BitcoinBridge
toy_bridge = new toy_host "key" testnet

abbrev pub validator_of : String → ℕ → RelayValidator
validator_of address stake = record {
  address = address;
  stake = stake;
  delegated_stake = 0;
  total_power = stake;
  is_active = true;
  relay_count = 0;
  last_relay_time = 0;
  is_system = false;
}

abbrev pub toy_validators : Map String RelayValidator
toy_validators = ("alice", validator_of "alice" 40000) ∷ ("bob", validator_of "bob" 10) ∷ []

abbrev pub toy_delegations : List StakeDelegation
toy_delegations = record { delegator = "carol"; validator = "bob"; amount = 90; timestamp = 1 } ∷ []

abbrev pub toy_tx : TxRequest
toy_tx = record {
  from_op = "alice";
  receiver_op = "bob";
  value_tx = "5";
  nonce_tx = 1;
  hash = "0xhash";
  contract_addr = none;
  function_name = none;
  arguments = none;
}

abbrev pub toy_manager_with : (encoded : Option String) → Manager (toy_with encoded)
toy_manager_with encoded = record {
  epoch_id = 0;
  committee = [];
  balances = [];
  storage = [];
  block_sender = [];
  pending_transactions = ("alice:bob:5:1", toy_tx) ∷ [];
  block_counts = [];
  vm = 0;
  last_block_hash = none;
  validators = [];
  slurachain_data = [];
  current_validator_index = 0;
  block_time_ms = 3000;
  relay_validators = toy_validators;
  delegations = toy_delegations;
  min_relay_stake = 30000;
  relay_round_duration = 15000;
  current_relay_leader = some "alice";
  total_vez_supply = 0;
  is_decentralized = false;
  mempool_tx_sender = [];
  btc_bridge = some toy_bridge;
  last_btc_height = 0;
}

abbrev pub toy_manager : Manager toy
toy_manager = toy_manager_with (some "block")

-- The same manager without validators.
abbrev pub idle_manager : Manager toy
idle_manager = record toy_manager { relay_validators = [] }
