-- ===== src/Tests/Chain.antt =====
-- The chain, its database copy and the heights at concrete inputs.
use slura_chain.Base.{
  arith, ℕ, ◌≡◌, refl, false, string_eq, none, some, List, [], ◌++◌, ◌==◌, nat_eq, if◌then◌else◌,
}
use slura_chain.Storage.{get_metadata}
use slura_chain.Consensus.Types.{BlockData, Manager}
use slura_chain.Consensus.Chain.{get_block_by_number, add_lurosonie_block_to_chain}
use slura_chain.Consensus.Chain.Lookup.{or_block, get_block_by_number-add_lurosonie_block_to_chain}
use slura_chain.Consensus.Sync.{sync_from}
use slura_chain.Consensus.Sync.Stop.{sync_from_returns}
use slura_chain.Tests.Fixtures.{toy, toy_manager}

abbrev block_one : BlockData
block_one = record {
  block = record { timestamp = 9; log = "log"; block_number = 1; vyfties_id = "alice" };
  transactions = [];
  validator = "alice";
  contract_states = [];
  execution_results = [];
  relay_power = 40100;
  delegated_stake = 0;
  is_system_block = false;
  bitcoin_anchor = none;
  parent_slura_hash = none;
}

sync_from_returns_example :
    (m' : Manager toy) × (more : List BlockData) × (sync_from toy 4 1 toy_manager ≡ some m')
    × (m'.slurachain_data ≡ [] ++ more)
    × (m'.storage ≡ [])
unfolding get_metadata
sync_from_returns_example = sync_from_returns toy 3 1 toy_manager (omega arith) refl

get_block_by_number-add_lurosonie_block_to_chain_example :
    get_block_by_number toy 1 (add_lurosonie_block_to_chain toy block_one toy_manager).1
    ≡ or_block
        (get_block_by_number toy 1 toy_manager)
        (if ◌==◌ {A = ℕ} 1 1 then some block_one else none)
get_block_by_number-add_lurosonie_block_to_chain_example =
    get_block_by_number-add_lurosonie_block_to_chain toy block_one toy_manager 1 "0xchain" refl
