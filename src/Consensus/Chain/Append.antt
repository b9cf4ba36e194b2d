-- ===== src/Consensus/Chain/Append.antt =====
-- The chain as a linked list of hashes with consecutive numbers, and what adding a block does.
use slura_chain.Base.{
  ℕ, suc, ◌+◌, ◌≡◌, refl, ◌∙◌, sym, String, Option, none, some, List, [], ◌∷◌, ◌++◌, length, last,
  arith, inl, inr, ◌⊎◌, ltb, Bool-cases,
}
use slura_chain.Base.Outcome.{err}
use slura_chain.Consensus.Types.{BlockData, serialization, block_channel_size, Env, Manager}
use slura_chain.Consensus.Chain.{
  chain_document_of, number_of, digest, add_hashed, add_lurosonie_block_to_chain, get_block_height,
}

-- Numbers that go up by one, the first one after `n`.
abbrev pub Numbered : ℕ → List BlockData → Type 0
Numbered n [] = Unit
Numbered n (b ∷ bs) = (number_of b ≡ n + 1) × Numbered (n + 1) bs

pub Numbered-append :
    (n : ℕ) (bs : List BlockData) (b : BlockData)
    → Numbered n bs
    → number_of b ≡ n + length bs + 1
    → Numbered n (bs ++ b ∷ [])
Numbered-append n [] b h e = (omega arith, tt)
Numbered-append n (c ∷ bs) b h e = (h.0, Numbered-append (n + 1) bs b h.1 (omega arith))

abbrev number_or : ℕ → Option BlockData → ℕ
number_or d none = d
number_or d (some b) = number_of b

last-Numbered :
    (d n : ℕ) (b : BlockData) (bs : List BlockData)
    → Numbered n (b ∷ bs)
    → number_or d (last (b ∷ bs)) ≡ n + suc (length bs)
last-Numbered d n b [] h = omega arith
last-Numbered d n b (c ∷ bs) h = omega (arith, last-Numbered d (n + 1) c bs h.1)

module _ (E : Env) where
  -- From the hash `start`, every block names the hash of the block before it, and `end` is the
  -- hash of the last block.
  abbrev pub Linked : Option String → List BlockData → Option String → Type 0
  Linked start [] end = start ≡ end
  Linked start (b ∷ bs) end =
      (b.parent_slura_hash ≡ start) × Linked (digest E (chain_document_of b)) bs end

  pub Linked-append :
      (start end : Option String) (bs : List BlockData) (b : BlockData)
      → Linked start bs end
      → b.parent_slura_hash ≡ end
      → Linked start (bs ++ b ∷ []) (digest E (chain_document_of b))
  Linked-append start end [] b h e = (e ∙ sym h, refl)
  Linked-append start end (c ∷ bs) b h e =
      (h.0, Linked-append (digest E (chain_document_of c)) end bs b h.1 e)

  -- The chain of the manager ends in its last hash.
  abbrev pub IsLinked : Option String → Manager E → Type 0
  IsLinked start m = Linked start m.slurachain_data m.last_block_hash

  -- What may have happened to chain and hash after an attempt to add `b`.
  abbrev pub Extends : BlockData → Manager E → Manager E → Type 0
  Extends b m m' =
      (m'.slurachain_data ≡ m.slurachain_data ++ b ∷ [])
      × (m'.last_block_hash ≡ digest E (chain_document_of b))

  abbrev pub Keeps : Manager E → Manager E → Type 0
  Keeps m m' = (m'.slurachain_data ≡ m.slurachain_data) × (m'.last_block_hash ≡ m.last_block_hash)

  add_hashed_outcome :
      (b : BlockData) (hash encoded : Option String) (m : Manager E)
      → (((add_hashed E b hash encoded m).1.slurachain_data ≡ m.slurachain_data ++ b ∷ [])
          × ((add_hashed E b hash encoded m).1.last_block_hash ≡ hash))
        ⊎ (add_hashed E b hash encoded m ≡ (err serialization, m))
  add_hashed_outcome b none encoded m = inr refl
  add_hashed_outcome b (some hash) none m = inl (refl, refl)
  add_hashed_outcome b (some hash) (some encoded) m =
      elim (Bool-cases (ltb (length m.block_sender) block_channel_size)) [
        | inl room ↦ rw room (inl (refl, refl))
        | inr full ↦ rw full (inl (refl, refl))
      ]

  -- With a document that can be hashed the block is on the chain and its hash is the last one,
  -- also where the block then cannot be encoded, or cannot be sent; otherwise nothing changes.
  pub add_lurosonie_block_to_chain_outcome :
      (b : BlockData) (m : Manager E)
      → Extends b m (add_lurosonie_block_to_chain E b m).1
        ⊎ (add_lurosonie_block_to_chain E b m ≡ (err serialization, m))
  unfolding add_lurosonie_block_to_chain
  add_lurosonie_block_to_chain_outcome b m = add_hashed_outcome b _ _ m

  -- A block whose document can be hashed goes onto the chain, however the call ends.
  pub add_hashable :
      (b : BlockData) (m : Manager E) (hash : String)
      → digest E (chain_document_of b) ≡ some hash
      → (add_lurosonie_block_to_chain E b m).1.slurachain_data ≡ m.slurachain_data ++ b ∷ []
  unfolding add_lurosonie_block_to_chain
  add_hashable b m hash hashed =
      rw (hashed, add_lurosonie_block_to_chain) (appended (E.encode_block b))
    where
      appended :
          (encoded : Option String)
          → (add_hashed E b (some hash) encoded m).1.slurachain_data ≡ m.slurachain_data ++ b ∷ []
      appended none = refl
      appended (some coded) = elim (Bool-cases (ltb (length m.block_sender) block_channel_size)) [
        | inl room ↦ rw room refl
        | inr full ↦ rw full refl
      ]

  -- Adding a block that names the last hash keeps the chain linked, however the call ends.
  pub add_lurosonie_block_to_chain-IsLinked :
      (start : Option String) (b : BlockData) (m : Manager E)
      → b.parent_slura_hash ≡ m.last_block_hash
      → IsLinked start m
      → IsLinked start (add_lurosonie_block_to_chain E b m).1
  add_lurosonie_block_to_chain-IsLinked start b m e h =
      elim (add_lurosonie_block_to_chain_outcome b m) [
        | inr same ↦ rw same h
        | inl (chain, hash) ↦
            rw (chain, hash) (Linked-append start m.last_block_hash m.slurachain_data b h e)
      ]

  -- On a chain that is numbered from 1 the height is the number of blocks.
  pub get_block_height-Numbered :
      (m : Manager E)
      → Numbered 0 m.slurachain_data
      → get_block_height E m ≡ length m.slurachain_data
  unfolding get_block_height
  get_block_height-Numbered m h = height_of m.slurachain_data h
    where
      height_of :
          (bs : List BlockData)
          → Numbered 0 bs
          → elim (last bs) [ none ↦ 0 | some b ↦ number_of b ] ≡ length bs
      height_of [] h = refl
      height_of (b ∷ bs) h = ground (arith, last-Numbered 0 0 b bs h)
