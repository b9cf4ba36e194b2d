-- ===== src/Bridge/Anchor.antt =====
-- Block anchors: `get_block_anchor` of crates/vuc-bridge/src/lib.rs.
use slura_chain.Base.{ℕ, suc, ◌≡◌, some, inl, inr, arith}
use slura_chain.Base.Outcome.{ok, Result-cases}
use slura_chain.Bridge.Types.{BitcoinBlockAnchor, Rpc}
use slura_chain.Bridge.Deposits.{get_block_anchor}

-- An anchor carries its height and the hash that the node gives for it.
pub get_block_anchor-block_hash :
    (rpc : Rpc) (height : ℕ) {a : BitcoinBlockAnchor}
    → get_block_anchor rpc height ≡ ok a
    → (a.height ≡ height) × (rpc.get_block_hash height ≡ ok a.block_hash)
unfolding get_block_anchor
get_block_anchor-block_hash rpc height {a} h = elim (Result-cases (rpc.get_block_hash height)) [
  | inr (e, q) ↦ absurd (ground (arith, q))
  | inl (hash, q) ↦ ground (arith, q)
]

-- Anchors of neighbouring heights that one state of the node answers are linked: the upper one
-- names the hash of the lower one as its previous hash.
pub get_block_anchor_linked :
    (rpc : Rpc) (height : ℕ) {a b : BitcoinBlockAnchor}
    → get_block_anchor rpc height ≡ ok a
    → get_block_anchor rpc (suc height) ≡ ok b
    → b.previous_block_hash ≡ some a.block_hash
unfolding get_block_anchor
get_block_anchor_linked rpc height {a} {b} h k =
    let below : rpc.get_block_hash height ≡ ok a.block_hash =
      (get_block_anchor-block_hash rpc height h).1 in
    ground (arith, below)
