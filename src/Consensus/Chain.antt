-- ===== src/Consensus/Chain.antt =====
-- The chain in memory and its copy in the database: `add_lurosonie_block_to_chain`,
-- `add_block_to_chain` and the reads of the chain.
pub mod Append
pub mod Lookup
use slura_chain.Base.{
  ℕ, ◌%◌, ◌<◌, String, Bool, false, Option, none, some, List, [], ◌∷◌, ◌++◌, ◌&&◌, not, ◌==◌,
  nat_eq, string_eq, length, first, last, find, leb, ltb, if◌then◌else◌,
}
use slura_chain.Base.Map.{Map, lookup}
use slura_chain.Base.Outcome.{Result, ok, err}
use slura_chain.Base.Text.{decimal, join}
use slura_chain.Storage.{SlurachainMetadata, DbResult, store_metadata}
use slura_chain.Consensus.Types.{
  TimestampRelease, BlockData, Document, chain_document, lookup_document, release_document, Error,
  serialization, waiting, block_channel_size, Env, Manager,
}

abbrev pub chain_document_of : BlockData → Document
chain_document_of b =
    chain_document b.block b.relay_power b.delegated_stake b.validator (length b.contract_states)
      (length b.transactions) b.bitcoin_anchor b.parent_slura_hash

abbrev pub lookup_document_of : BlockData → Document
lookup_document_of b = lookup_document b.block b.relay_power b.delegated_stake b.validator

abbrev pub number_of : BlockData → ℕ
number_of b = b.block.block_number

abbrev pub block_metadata : BlockData → String → String → SlurachainMetadata
block_metadata b encoded hash = record {
  from_op = "lurosonie_system";
  receiver_op = b.validator;
  fees_tx = b.relay_power;
  value_tx = encoded;
  nonce_tx = number_of b;
  hash_tx = hash;
}

unfoldable pub block_key : ℕ → String
block_key number = join "lurosonie_block:" (decimal number)

unfoldable pub state_key : String → ℕ → String
state_key contract number =
    join "lurosonie_contract_state:" (join contract (join ":" (decimal number)))

module _ (E : Env) where
  open E use {rocks, to_string, sha3_hex, eq_ignore_ascii_case, hex_encode, encode_block}

  -- The SHA3 of a serialised document, after `0x`.
  abbrev pub digest : Document → Option String
  digest doc = elim (to_string doc) [ none ↦ none | some text ↦ some (join "0x" (sha3_hex text)) ]

  -- An error of the database is logged, and the database is as it was.
  abbrev pub stored_or_logged : rocks.Db → DbResult rocks.Db → rocks.Db
  stored_or_logged d (ok d') = d'
  stored_or_logged d (err e) = d

  abbrev pub state_metadata : BlockData → String → String → List ℕ → SlurachainMetadata
  state_metadata b hash contract bytes = record {
    from_op = "lurosonie_system";
    receiver_op = contract;
    fees_tx = 0;
    value_tx = hex_encode bytes;
    nonce_tx = number_of b;
    hash_tx = hash;
  }

  unfoldable pub store_states : BlockData → String → Map String (List ℕ) → rocks.Db → rocks.Db
  store_states b hash [] d = d
  store_states b hash ((contract, bytes) ∷ rest) d = store_states b hash rest (
      stored_or_logged d (
        store_metadata rocks d (state_key contract (number_of b))
          (state_metadata b hash contract bytes)))

  -- `send(..).await` on a channel whose receiver is kept and never read: it waits for ever when the
  -- channel is full.
  abbrev pub send_block : TimestampRelease → Manager E → Result Unit Error × Manager E
  send_block block m =
      if ltb (length m.block_sender) block_channel_size
      then (ok tt, record m { block_sender = m.block_sender ++ block ∷ [] })
      else (err waiting, m)

  -- After the hash is known: the hash and the chain are written before the block is encoded.
  abbrev pub add_hashed :
      BlockData → Option String → Option String → Manager E → Result Unit Error × Manager E
  add_hashed b none encoded m = (err serialization, m)
  add_hashed b (some hash) none m = (
    err serialization,
    record m { last_block_hash = some hash; slurachain_data = m.slurachain_data ++ b ∷ [] },
  )
  add_hashed b (some hash) (some encoded) m = send_block b.block (record m {
    last_block_hash = some hash;
    slurachain_data = m.slurachain_data ++ b ∷ [];
    storage = store_states b hash b.contract_states (
        stored_or_logged m.storage (
          store_metadata rocks m.storage (block_key (number_of b))
            (block_metadata b encoded hash)));
  })

  unfoldable pub add_lurosonie_block_to_chain :
      BlockData → Manager E → Result Unit Error × Manager E
  unfolding store_states
  add_lurosonie_block_to_chain b m = add_hashed b (digest (chain_document_of b)) (encode_block b) m

  -- `serde_json::to_string(&block).unwrap()`: `none` is the panic. The hash has no `0x` here.
  unfoldable pub add_block_to_chain : TimestampRelease → Manager E → Option (Manager E)
  add_block_to_chain block m = elim (to_string (release_document block)) [
    | none ↦ none
    | some text ↦ some (record m { last_block_hash = some (sha3_hex text) })
  ]

  unfoldable pub get_block_height : Manager E → ℕ
  get_block_height m = elim (last m.slurachain_data) [ none ↦ 0 | some b ↦ number_of b ]

  unfoldable pub get_oldest_block_height : Manager E → ℕ
  get_oldest_block_height m = elim (first m.slurachain_data) [ none ↦ 0 | some b ↦ number_of b ]

  unfoldable pub get_last_block_info : Manager E → Option (ℕ × String)
  get_last_block_info m = elim (last m.slurachain_data) [
    | none ↦ none
    | some b ↦ some (number_of b, b.validator)
  ]

  unfoldable pub get_block_by_number : ℕ → Manager E → Option BlockData
  get_block_by_number number m = find (λ b. number_of b == number) m.slurachain_data

  -- A document that cannot be serialised ends the search with `None`, by `.ok()?`.
  unfoldable pub block_by_hash : String → List BlockData → Option BlockData
  block_by_hash block_hash [] = none
  block_by_hash block_hash (b ∷ rest) =
      let later = block_by_hash block_hash rest in
      elim (digest (lookup_document_of b)) [
        | none ↦ none
        | some hash ↦ if eq_ignore_ascii_case hash block_hash then some b else later
      ]

  unfoldable pub get_block_by_hash : String → Manager E → Option BlockData
  unfolding block_by_hash
  get_block_by_hash block_hash m = block_by_hash block_hash m.slurachain_data

  -- A document that cannot be serialised is the empty text.
  unfoldable pub block_hashes : List BlockData → List String
  block_hashes [] = []
  block_hashes (b ∷ rest) =
      join "0x"
        (sha3_hex (elim (to_string (lookup_document_of b)) [ none ↦ "" | some text ↦ text ]))
      ∷ block_hashes rest

  unfoldable pub get_all_block_hashes : Manager E → List String
  unfolding block_hashes
  get_all_block_hashes m = block_hashes m.slurachain_data

  unfoldable pub validate_lurosonie_block : ℕ → Manager E → Bool
  unfolding get_block_by_number
  validate_lurosonie_block number m = elim (get_block_by_number number m) [
    | none ↦ false
    | some b ↦
        not (b.block.vyfties_id == "")
        && (ltb 0 (number_of b) && leb m.min_relay_stake b.relay_power)
  ]
