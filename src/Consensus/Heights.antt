-- ===== src/Consensus/Heights.antt =====
-- The last processed Bitcoin height in the database.
use slura_chain.Base.{ℕ, Option, none, some, String, ◌≡◌, inl, inr, arith}
use slura_chain.Base.Outcome.{Result, ok, err, Result-cases}
use slura_chain.Storage.{SlurachainMetadata, DbResult, RocksLaws, store_metadata, get_metadata}
use slura_chain.Storage.Metadata.{get_metadata-store_metadata}
use slura_chain.Consensus.Types.{Error, db_failed, bad_height, Env, Manager}
use slura_chain.Consensus.Chain.{stored_or_logged}

abbrev pub height_key : String
height_key = "lurosonie:last_btc_height"

module _ (E : Env) where
  open E use {rocks, encode_height, decode_height}

  abbrev pub height_metadata : ℕ → SlurachainMetadata
  height_metadata height = record {
    from_op = "lurosonie_system";
    receiver_op = "btc_height_tracker";
    fees_tx = 0;
    value_tx = encode_height height;
    nonce_tx = height;
    hash_tx = "btc_height";
  }

  abbrev pub height_of : DbResult (Option SlurachainMetadata) → Result ℕ Error
  height_of (err e) = err db_failed
  height_of (ok none) = ok 0
  height_of (ok (some metadata)) = elim (decode_height metadata.value_tx) [
    | none ↦ err bad_height
    | some height ↦ ok height
  ]

  unfoldable pub load_last_processed_btc_height : Manager E → Result ℕ Error
  load_last_processed_btc_height m = height_of (get_metadata rocks m.storage height_key)

  unfoldable pub save_last_processed_btc_height : ℕ → Manager E → Manager E
  save_last_processed_btc_height height m = record m {
    storage =
        stored_or_logged E m.storage
          (store_metadata rocks m.storage height_key (height_metadata height));
  }

  -- A height that is read back from its own text, and that the database accepts, is the height that
  -- is loaded after it, whatever was saved before; one that the database refuses leaves the loaded
  -- height as it was.
  pub load-save_last_processed_btc_height :
      (laws : RocksLaws rocks) (height : ℕ) (m : Manager E)
      → decode_height (encode_height height) ≡ some height
      → load_last_processed_btc_height (save_last_processed_btc_height height m)
        ≡ elim (store_metadata rocks m.storage height_key (height_metadata height)) [
          | ok _ ↦ ok height
          | err _ ↦ load_last_processed_btc_height m
        ]
  unfolding load_last_processed_btc_height save_last_processed_btc_height
  load-save_last_processed_btc_height laws height m decoded =
      elim (Result-cases (store_metadata rocks m.storage height_key (height_metadata height))) [
        | inr (e, q) ↦ rw q
        | inl (d, q) ↦
            rw
              (
                q,
                get_metadata-store_metadata rocks laws m.storage d height_key
                    (height_metadata height) q,
              )
              (ground (arith, decoded))
      ]
