-- ===== src/Consensus/Chain/Lookup.antt =====
-- Finding blocks again, by number and by hash.
use slura_chain.Base.{
  ℕ, ◌+◌, ◌<◌, ◌≡◌, refl, sym, ◌∙◌, inl, inr, false, Option, none, some, List, [], ◌∷◌, ◌++◌, arith,
  String, if◌then◌else◌, length, find, ◌==◌, nat_eq, string_eq, beq_self, Bool-cases, Option-cases,
}
use slura_chain.Consensus.Types.{BlockData, Env, Manager}
use slura_chain.Consensus.Chain.{
  chain_document_of, lookup_document_of, number_of, digest, get_block_by_number, block_by_hash,
  get_block_by_hash, add_lurosonie_block_to_chain,
}
use slura_chain.Consensus.Chain.Append.{Numbered, Extends, add_hashable}

-- A number outside the range of the chain is not found.
find-Numbered_above :
    (n k : ℕ) (bs : List BlockData)
    → Numbered n bs
    → n + length bs < k
    → find (λ b. number_of b == k) bs ≡ none
find-Numbered_above n k [] h above = refl
find-Numbered_above n k (b ∷ bs) h above =
    let other : (number_of b == k) ≡ false = ground (arith, h.0) in
    rw other (find-Numbered_above (n + 1) k bs h.1 (omega arith))

-- A search finds what the longer list has first.
abbrev pub or_block : Option BlockData → Option BlockData → Option BlockData
or_block (some b) later = some b
or_block none later = later

find-append_block :
    (k : ℕ) (b : BlockData) (bs : List BlockData)
    → find (λ c. number_of c == k) (bs ++ b ∷ [])
      ≡ or_block (find (λ c. number_of c == k) bs) (if number_of b == k then some b else none)
find-append_block k b [] = refl
find-append_block k b (c ∷ bs) = elim (Bool-cases (number_of c == k)) [
  | inl same ↦ rw same refl
  | inr other ↦ rw other (find-append_block k b bs)
]

module _ (E : Env) where
  -- After an attempt to add a block whose document can be hashed, however the attempt ends, a
  -- search by number answers as it did before where it found a block, and otherwise finds the new
  -- block under its own number and nothing under any other.
  pub get_block_by_number-add_lurosonie_block_to_chain :
      (b : BlockData) (m : Manager E) (k : ℕ) (hash : String)
      → digest E (chain_document_of b) ≡ some hash
      → get_block_by_number E k (add_lurosonie_block_to_chain E b m).1
        ≡ or_block (get_block_by_number E k m) (if number_of b == k then some b else none)
  unfolding get_block_by_number
  get_block_by_number-add_lurosonie_block_to_chain b m k hash hashed =
      rw (add_hashable E b m hash hashed) (find-append_block k b m.slurachain_data)

  -- On a chain numbered from 1, a block that is added with the next number is found by it.
  pub get_block_by_number_next :
      (b : BlockData) (m : Manager E) (hash : String)
      → Numbered 0 m.slurachain_data
      → number_of b ≡ length m.slurachain_data + 1
      → digest E (chain_document_of b) ≡ some hash
      → get_block_by_number E (number_of b) (add_lurosonie_block_to_chain E b m).1 ≡ some b
  unfolding get_block_by_number
  get_block_by_number_next b m hash h next hashed = rw (add_hashable E b m hash hashed) (
      find-append_block (number_of b) b m.slurachain_data
      ∙ rw (find-Numbered_above 0 (number_of b) m.slurachain_data h (omega (arith, next)))
          (rw (beq_self (number_of b)) refl))

  block_by_hash_misses :
      (hash : String) (bs : List BlockData)
      → ((b : BlockData) (short : String)
          → digest E (lookup_document_of b) ≡ some short
          → E.eq_ignore_ascii_case short hash ≡ false)
      → block_by_hash E hash bs ≡ none
  unfolding block_by_hash
  block_by_hash_misses hash [] apart = refl
  block_by_hash_misses hash (b ∷ bs) apart = elim (Option-cases (digest E (lookup_document_of b))) [
    | inl e ↦ rw (e, block_by_hash)
    | inr (short, e) ↦ rw (e, block_by_hash, apart b short e) (block_by_hash_misses hash bs apart)
  ]

  -- The hash under which a block goes onto the chain never finds a block, while no shorter object
  -- of `get_block_by_hash` has the digest of a longer one of `add_lurosonie_block_to_chain`.
  pub get_block_by_hash-last_block_hash :
      (m m' : Manager E) (b : BlockData) (hash : String)
      → ((c d : BlockData) (short long : String)
          → digest E (lookup_document_of c) ≡ some short
          → digest E (chain_document_of d) ≡ some long
          → E.eq_ignore_ascii_case short long ≡ false)
      → Extends E b m m'
      → m'.last_block_hash ≡ some hash
      → get_block_by_hash E hash m' ≡ none
  unfolding get_block_by_hash
  get_block_by_hash-last_block_hash m m' b hash apart (chain, digested) e =
      block_by_hash_misses hash m'.slurachain_data
        (λ c short s. apart c b short hash s (sym digested ∙ e))
