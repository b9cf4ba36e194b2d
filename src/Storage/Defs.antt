-- ===== src/Storage/Defs.antt =====
-- crates/vuc-storage/src/storing_access.rs: the metadata record and the five operations.
use slura_chain.Base.{ℕ, Option, none, some, String, ◌≡◌}
use slura_chain.Base.Outcome.{Result, ok, err}

pub record SlurachainMetadata : Type 0 where
  pub from_op : String
  pub receiver_op : String
  pub fees_tx : ℕ
  pub value_tx : String
  pub nonce_tx : ℕ
  pub hash_tx : String

-- What `anyhow::Error` carries: a missing key, or a failure of the database or of serde.
pub data DbError : Type 0 where
  key_not_found : String → DbError
  read_failed write_failed encode_failed decode_failed : DbError

abbrev pub DbResult : Type 0 → Type 0
DbResult A = Result A DbError

-- The RocksDB handle: `get` gives the bytes of a key or nothing, `put` writes one key. The laws
-- are those of a key-value store without deletion.
pub record Rocks : Type 1 where
  pub Db : Type 0
  pub Bytes : Type 0
  pub get : Db → String → DbResult (Option Bytes)
  pub put : Db → String → Bytes → DbResult Db
  pub to_vec : SlurachainMetadata → DbResult Bytes
  pub from_slice : Bytes → DbResult SlurachainMetadata

-- `get` after a `put` that went through reads the bytes back, and `from_slice` undoes `to_vec`.
pub record RocksLaws (R : Rocks) : Type 0 where
  pub get_put :
      (d d' : R.Db) (k : String) (b : R.Bytes) → R.put d k b ≡ ok d' → R.get d' k ≡ ok (some b)
  pub decode_encode :
      (m : SlurachainMetadata) (b : R.Bytes) → R.to_vec m ≡ ok b → R.from_slice b ≡ ok m

module _ (R : Rocks) where
  open R use {Db, Bytes, get, put, to_vec, from_slice}

  abbrev pub or_missing : String → DbResult (Option Bytes) → DbResult Bytes
  or_missing key (ok (some b)) = ok b
  or_missing key (ok none) = err (key_not_found key)
  or_missing key (err e) = err read_failed

  pub read : Db → String → DbResult Bytes
  read d key = or_missing key (get d key)

  abbrev pub or_write_failed : DbResult Db → DbResult Db
  or_write_failed (ok d) = ok d
  or_write_failed (err e) = err write_failed

  pub write : Db → String → Bytes → DbResult Db
  write d key value = or_write_failed (put d key value)

  abbrev pub write_encoded : Db → String → DbResult Bytes → DbResult Db
  unfolding write
  write_encoded d key (ok bytes) = write d key bytes
  write_encoded d key (err e) = err encode_failed

  unfoldable pub store_metadata : Db → String → SlurachainMetadata → DbResult Db
  unfolding write
  store_metadata d key metadata = write_encoded d key (to_vec metadata)

  abbrev pub decoded : DbResult SlurachainMetadata → DbResult (Option SlurachainMetadata)
  decoded (ok m) = ok (some m)
  decoded (err e) = err decode_failed

  abbrev pub metadata_of : DbResult Bytes → DbResult (Option SlurachainMetadata)
  metadata_of (ok bytes) = decoded (from_slice bytes)
  metadata_of (err (key_not_found key)) = ok none
  metadata_of (err read_failed) = err read_failed
  metadata_of (err write_failed) = err write_failed
  metadata_of (err encode_failed) = err encode_failed
  metadata_of (err decode_failed) = err decode_failed

  unfoldable pub get_metadata : Db → String → DbResult (Option SlurachainMetadata)
  unfolding read
  get_metadata d key = metadata_of (read d key)
