-- ===== src/Consensus/Start.antt =====
-- `LurosonieManager::new_with_storage`, and the steps by which a manager goes on from there.
pub mod Reachable
use slura_chain.Base.{
  ℕ, String, Bool, false, Option, none, some, [], ◌==◌, string_eq, if◌then◌else◌,
}
use slura_chain.Bridge.{BitcoinBridge, NetworkType, mainnet, testnet, devnet, Host, new}
use slura_chain.Consensus.Types.{lurosonie_min_relay_stake, Env, Manager}

-- `match network_str.as_str()`, where the variable may be unset.
unfoldable pub network_of : Option String → NetworkType
network_of none = testnet
network_of (some network_str) =
    if network_str == "mainnet"
    then mainnet
    else (if network_str == "testnet" then testnet else devnet)

-- Without an API key there is no bridge.
unfoldable pub bridge_of : Host → Option String → Option String → Option BitcoinBridge
unfolding network_of
bridge_of h network none = none
bridge_of h network (some api_key) =
    if api_key == "" then none else some (new h api_key (network_of network))

-- `network` and `api_key` are the variables SLURACHAIN_NETWORK and BTC_BRIDGE_API_KEY.
unfoldable pub new_with_storage :
    (E : Env) → Host → Option String → Option String → E.rocks.Db → E.Vm → Manager E
unfolding bridge_of
new_with_storage E h network api_key storage vm = record {
  epoch_id = 0;
  committee = [];
  balances = [];
  storage = storage;
  block_sender = [];
  pending_transactions = [];
  block_counts = [];
  vm = E.set_storage_manager vm;
  last_block_hash = none;
  validators = [];
  slurachain_data = [];
  current_validator_index = 0;
  block_time_ms = 3000;
  relay_validators = [];
  delegations = [];
  min_relay_stake = lurosonie_min_relay_stake;
  relay_round_duration = 15000;
  current_relay_leader = none;
  total_vez_supply = 0;
  is_decentralized = false;
  mempool_tx_sender = [];
  btc_bridge = bridge_of h network api_key;
  last_btc_height = 0;
}
