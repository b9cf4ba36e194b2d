-- ===== src/Consensus/Sync/Stop.antt =====
-- Where `sync_from_database` stops.
use slura_chain.Base.{
  ℕ, zero, suc, ◌+◌, ◌<◌, ◌≡◌, refl, ap, sym, ◌∙◌, Option, none, some, List, [], ◌∷◌, ◌++◌, any,
  ◌==◌, nat_eq, arith, Bool-cases, inl, inr,
}
use mathlib.Core.Path.{subst}
use mathlib.Core.List.{append-nil, append_assoc}
use slura_chain.Base.Word.{modulus, wrapping_add}
use slura_chain.Base.Outcome.{ok, Result-cases}
use slura_chain.Storage.{get_metadata}
use slura_chain.Consensus.Types.{BlockData, Env, Manager}
use slura_chain.Consensus.Chain.{number_of, block_key}
use slura_chain.Consensus.Sync.{push_decoded, sync_from, sync_from_database}

module _ (E : Env) where
  storage-push_decoded :
      (n : ℕ) (b : Option BlockData) (m : Manager E) → (push_decoded E n b m).storage ≡ m.storage
  storage-push_decoded n none m = refl
  storage-push_decoded n (some b) m =
      elim (Bool-cases (any (λ held. number_of held == n) m.slurachain_data)) [
        | inl present ↦ rw present refl
        | inr absent ↦ rw absent refl
      ]

  chain-push_decoded :
      (n : ℕ) (b : Option BlockData) (m : Manager E)
      → (more : List BlockData) × ((push_decoded E n b m).slurachain_data
          ≡ m.slurachain_data ++ more)
  chain-push_decoded n none m = ([], sym (append-nil m.slurachain_data))
  chain-push_decoded n (some b) m =
      elim (Bool-cases (any (λ held. number_of held == n) m.slurachain_data)) [
        | inl present ↦ ([], rw present (sym (append-nil m.slurachain_data)))
        | inr absent ↦ (b ∷ [], rw absent refl)
      ]

  -- If the database has no block under the number `block_num + turns`, which fits a `u64`, then `turns + 1` turns of
  -- the loop are enough to come to its end from `block_num`; the blocks that the chain held stay,
  -- and the database is not written.
  pub sync_from_returns :
      (turns block_num : ℕ) (m : Manager E)
      → block_num + turns < modulus
      → get_metadata E.rocks m.storage (block_key (block_num + turns)) ≡ ok none
      → (m' : Manager E) × (more : List BlockData) × (sync_from E (suc turns) block_num m ≡ some m')
        × (m'.slurachain_data ≡ m.slurachain_data ++ more)
        × (m'.storage ≡ m.storage)
  unfolding sync_from
  sync_from_returns zero block_num m fits missing =
      let no_turn : block_num + 0 ≡ block_num = omega arith in
      let here : get_metadata E.rocks m.storage (block_key block_num) ≡ ok none =
        subst (λ k. get_metadata E.rocks m.storage (block_key k) ≡ ok none) no_turn missing in
      (m, [], rw (here, sync_from) refl, sym (append-nil m.slurachain_data), refl)
  sync_from_returns (suc turns) block_num m fits missing =
      elim (Result-cases (get_metadata E.rocks m.storage (block_key block_num))) [
        | inr (e, q) ↦ (m, [], rw (q, sync_from) refl, sym (append-nil m.slurachain_data), refl)
        | inl (none, q) ↦ (m, [], rw (q, sync_from) refl, sym (append-nil m.slurachain_data), refl)
        | inl (some metadata, q) ↦
            let next = push_decoded E block_num (E.decode_block metadata.value_tx) m in
            let stored = storage-push_decoded block_num (E.decode_block metadata.value_tx) m in
            let (pushed, chain) =
              chain-push_decoded block_num (E.decode_block metadata.value_tx) m in
            let turn : block_num + suc turns ≡ wrapping_add block_num 1 + turns = omega arith in
            let (m', more, returned, longer, same) =
              sync_from_returns turns (wrapping_add block_num 1) next (omega arith) (
                rw stored (
                  subst (λ k. get_metadata E.rocks m.storage (block_key k) ≡ ok none) turn
                    missing)) in
            (
              m',
              pushed ++ more,
              rw (q, sync_from) returned,
              longer ∙ ap (λ bs. bs ++ more) chain ∙ append_assoc m.slurachain_data pushed more,
              same ∙ stored,
            )
      ]

  -- When the database has no block 0, one turn of the loop or more leaves the manager as before,
  -- whatever blocks the database has under the numbers from 1.
  pub sync_from_database_without_genesis :
      (fuel : ℕ) (m : Manager E)
      → get_metadata E.rocks m.storage (block_key 0) ≡ ok none
      → sync_from_database E (suc fuel) m ≡ some m
  unfolding sync_from_database sync_from
  sync_from_database_without_genesis fuel m missing = rw (missing, sync_from) refl
