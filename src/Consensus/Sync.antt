-- ===== src/Consensus/Sync.antt =====
-- `sync_from_database`: the loop that reads blocks back from the database.
pub mod Stop
use slura_chain.Base.{
  ℕ, zero, suc, ◌+◌, Option, none, some, [], ◌∷◌, ◌++◌, any, ◌==◌, nat_eq, if◌then◌else◌,
}
use slura_chain.Base.Word.{wrapping_add}
use slura_chain.Base.Outcome.{ok, err}
use slura_chain.Storage.{get_metadata}
use slura_chain.Consensus.Types.{BlockData, Env, Manager}
use slura_chain.Consensus.Chain.{number_of, block_key}

module _ (E : Env) where
  -- A block that cannot be decoded is logged. One whose key's number the chain already has is
  -- passed over.
  abbrev pub push_decoded : ℕ → Option BlockData → Manager E → Manager E
  push_decoded block_num none m = m
  push_decoded block_num (some b) m =
      if any (λ held. number_of held == block_num) m.slurachain_data
      then m
      else record m { slurachain_data = m.slurachain_data ++ b ∷ [] }

  -- The `loop`, on fuel; `none` is that the fuel ran out. The number is a `u64`.
  unfoldable pub sync_from : ℕ → ℕ → Manager E → Option (Manager E)
  sync_from zero block_num m = none
  sync_from (suc fuel) block_num m = elim (get_metadata E.rocks m.storage (block_key block_num)) [
    | err _ ↦ some m
    | ok none ↦ some m
    | ok (some metadata) ↦
        sync_from fuel (wrapping_add block_num 1)
          (push_decoded block_num (E.decode_block metadata.value_tx) m)
  ]

  unfoldable pub sync_from_database : ℕ → Manager E → Option (Manager E)
  unfolding sync_from
  sync_from_database fuel m = sync_from fuel 0 m
