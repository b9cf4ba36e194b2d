-- ===== src/Storage/Metadata.antt =====
-- What a client of the metadata store can rely on.
use slura_chain.Base.{◌≡◌, inl, inr, some, String, arith}
use slura_chain.Base.Outcome.{ok, Result-cases}
use slura_chain.Storage.Defs.{SlurachainMetadata, Rocks, RocksLaws, store_metadata, get_metadata}

module _ (R : Rocks) (laws : RocksLaws R) where
  -- A write that went through is read back.
  get_metadata-after_put :
      (d d' : R.Db) (key : String) (m : SlurachainMetadata) (b : R.Bytes)
      → R.to_vec m ≡ ok b
      → R.put d key b ≡ ok d'
      → get_metadata R d' key ≡ ok (some m)
  unfolding get_metadata
  get_metadata-after_put d d' key m b enc p =
      rw (laws.get_put d d' key b p, laws.decode_encode m b enc)

  -- Metadata that `store_metadata` has written is what `get_metadata` returns.
  pub get_metadata-store_metadata :
      (d d' : R.Db) (key : String) (m : SlurachainMetadata)
      → store_metadata R d key m ≡ ok d'
      → get_metadata R d' key ≡ ok (some m)
  unfolding store_metadata
  get_metadata-store_metadata d d' key m h = elim (Result-cases (R.to_vec m)) [
    | inr (e, q) ↦ absurd (ground (arith, q))
    | inl (b, q) ↦ elim (Result-cases (R.put d key b)) [
      | inr (e, p) ↦ absurd (ground (arith, q, p))
      | inl (d'', p) ↦ get_metadata-after_put d d' key m b q (ground (arith, q, p))
    ]
  ]
