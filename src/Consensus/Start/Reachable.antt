-- ===== src/Consensus/Start/Reachable.antt =====
-- The manager as a state machine whose steps are its operations, in any order.
use mathlib.Core.Path.{subst}
use slura_chain.Base.{
  ℕ, ◌≡◌, refl, sym, ap, ◌∙◌, String, Bool, false, Option, none, some, List, [], ◌∷◌, Bool-cases,
  inl, inr, ltb, ◌==◌, string_eq,
}
use slura_chain.Base.Map.{contains}
use slura_chain.Base.Word.{wrapping_add}
use slura_chain.Base.Outcome.{Result, ok, err}
use slura_chain.Bridge.{Rpc, Host}
use slura_chain.Consensus.Types.{
  TxRequest, BlockData, TimestampRelease, release_document, text, Error, Env, Manager,
}
use slura_chain.Consensus.Leader.{can_validator_produce_block}
use slura_chain.Consensus.Chain.{get_block_height, add_block_to_chain}
use slura_chain.Consensus.Chain.Append.{Linked, IsLinked}
use slura_chain.Consensus.Contract.{
  initialize_system_validator, sync_relay_validators_from_vm, find_vezcur_contract_address,
  lurosonie_relay_power_rotation, update_validator_power_onchain, distribute_block_reward,
  delegate_stake, vezcur_path, number_or_zero,
}
use slura_chain.Consensus.Mempool.{
  add_transaction_to_mempool, add_pending_transaction, remove_processed_transactions,
}
use slura_chain.Consensus.Heights.{save_last_processed_btc_height}
use slura_chain.Consensus.Produce.{
  produce_lurosonie_block_with_consensus, check_after, validate_and_add_transaction,
}
use slura_chain.Consensus.Produce.Block.{produce-IsLinked}
use slura_chain.Consensus.Watch.{process_height}
use slura_chain.Consensus.Watch.Round.{
  Core, core, core-lurosonie_bft_consensus, process_height-IsLinked,
}
use slura_chain.Consensus.Start.{new_with_storage}

-- The operations that write the manager once it is made, but for those that write the balances
-- only, for `add_block_to_chain`, which is a step of `Reachable`, and for `sync_from_database`,
-- which nothing calls. A call that waits for ever leaves the manager of that moment to the others.
pub data Step (E : Env) : Manager E → Manager E → Type 0 where
  initialize : (now : ℕ) (m : Manager E) → Step E m (initialize_system_validator E now m)
  height :
      (rpc : Rpc) (now height : ℕ) (m : Manager E) → Step E m (process_height E rpc now height m).1
  produce :
      (rpc : Rpc) (now number : ℕ) (producer : String) (is_system : Bool) (btc_height : ℕ)
      (m : Manager E)
      → Step E m
          (produce_lurosonie_block_with_consensus E rpc now number producer is_system btc_height
            m).1
  mempool : (tx : TxRequest) (m : Manager E) → Step E m (add_transaction_to_mempool tx m)
  add_pending : (tx : TxRequest) (m : Manager E) → Step E m (add_pending_transaction tx m)
  remove :
      (hashes : List String) (m : Manager E) → Step E m (remove_processed_transactions hashes m)
  validate_and_add :
      (rpc : Rpc) (now : ℕ) (tx : TxRequest) (validator : String) (m : Manager E)
      → Step E m (validate_and_add_transaction E rpc now tx validator m).1
  rotation : (now now' : ℕ) (m : Manager E) → Step E m (lurosonie_relay_power_rotation E now now' m)
  power :
      (validator : String) (amount : ℕ) (m : Manager E)
      → Step E m (update_validator_power_onchain E validator amount m).1
  reward :
      (producer : String) (amount : ℕ) (m : Manager E)
      → Step E m (distribute_block_reward E producer amount m).1
  delegate :
      (now : ℕ) (delegator validator : String) (amount : ℕ) (m : Manager E)
      → Step E m (delegate_stake E now delegator validator amount m).1
  save_height : (height : ℕ) (m : Manager E) → Step E m (save_last_processed_btc_height E height m)

-- What the constructor makes, and what steps make of that. The program calls `add_block_to_chain`
-- for its genesis release before any block is made; the hash is the last one that such a call left,
-- or `none`.
pub data Reachable (E : Env) (start : Manager E) : Option String → Manager E → Type 0 where
  here : Reachable E start none start
  genesis :
      {first_hash : Option String} {m m' : Manager E} (block : TimestampRelease)
      → Reachable E start first_hash m
      → m.slurachain_data ≡ []
      → add_block_to_chain E block m ≡ some m'
      → Reachable E start m'.last_block_hash m'
  later :
      {first_hash : Option String} {m m' : Manager E}
      → Reachable E start first_hash m
      → Step E m m'
      → Reachable E start first_hash m'

module _ (E : Env) where
  SameChain : (m m' : Manager E) → Type 0
  SameChain m m' =
      (m'.slurachain_data ≡ m.slurachain_data) × (m'.last_block_hash ≡ m.last_block_hash)

  chain-initialize : (now : ℕ) (m : Manager E) → SameChain m (initialize_system_validator E now m)
  unfolding initialize_system_validator SameChain
  chain-initialize now m = elim (Bool-cases (find_vezcur_contract_address E m.vm == "")) [
    | inl unset ↦ rw (unset, initialize_system_validator) (refl, refl)
    | inr set ↦ rw (set, initialize_system_validator) (refl, refl)
  ]

  chain-delegate_stake :
      (now : ℕ) (delegator validator : String) (amount : ℕ) (m : Manager E)
      → SameChain m (delegate_stake E now delegator validator amount m).1
  unfolding delegate_stake SameChain
  chain-delegate_stake now delegator validator amount m =
      elim (Bool-cases (contains validator m.relay_validators)) [
        | inr unknown ↦ rw (unknown, delegate_stake) (refl, refl)
        | inl known ↦
            let (reply, vm) =
              E.execute_module m.vm (vezcur_path E m.vm) "solde_of" (text delegator ∷ [])
                (some delegator) in
            elim (Bool-cases (ltb (number_or_zero E reply) amount)) [
              | inl short ↦ rw (known, short, delegate_stake) (refl, refl)
              | inr enough ↦ rw (known, enough, delegate_stake) (refl, refl)
            ]
      ]

  same_chain :
      (first_hash : Option String) (m m' : Manager E)
      → SameChain m m'
      → IsLinked E first_hash m
      → IsLinked E first_hash m'
  unfolding SameChain
  same_chain first_hash m m' (chain, hash) linked = rw (chain, hash) linked

  core-check_after :
      (n : ℕ) (r : Result Unit Error × Manager E) → core E (check_after E n r).1 ≡ core E r.1
  core-check_after n (err e, m) = refl
  core-check_after n (ok done, m) = core-lurosonie_bft_consensus E n m

  validate_and_add_transaction-IsLinked :
      (rpc : Rpc) (now : ℕ) (tx : TxRequest) (validator : String) (first_hash : Option String)
      (m : Manager E)
      → IsLinked E first_hash m
      → IsLinked E first_hash (validate_and_add_transaction E rpc now tx validator m).1
  unfolding validate_and_add_transaction add_pending_transaction
  validate_and_add_transaction-IsLinked rpc now tx validator first_hash m linked =
      let added = add_pending_transaction tx m in
      let number = wrapping_add (get_block_height E added) 1 in
      elim (Bool-cases
        (can_validator_produce_block m.min_relay_stake m.relay_validators validator)) [
          | inr refused ↦ rw refused linked
          | inl allowed ↦
              let made =
                produce_lurosonie_block_with_consensus E rpc now number validator false 0 added in
              rw allowed (
                subst (λ (c : Core E). Linked E first_hash c.0 c.1)
                  (sym (core-check_after number made))
                  (produce-IsLinked E rpc now number validator false 0 added first_hash linked))
        ]

  Step-IsLinked :
      (first_hash : Option String) {m m' : Manager E}
      → Step E m m'
      → IsLinked E first_hash m
      → IsLinked E first_hash m'
  unfolding SameChain remove_processed_transactions add_transaction_to_mempool
      add_pending_transaction lurosonie_relay_power_rotation sync_relay_validators_from_vm
      update_validator_power_onchain distribute_block_reward save_last_processed_btc_height
  Step-IsLinked first_hash (initialize now m) linked =
      same_chain first_hash m (initialize_system_validator E now m) (chain-initialize now m) linked
  Step-IsLinked first_hash (height rpc now h m) linked =
      process_height-IsLinked E rpc now h first_hash m linked
  Step-IsLinked first_hash (produce rpc now number producer is_system btc_height m) linked =
      produce-IsLinked E rpc now number producer is_system btc_height m first_hash linked
  Step-IsLinked first_hash (mempool tx m) linked = linked
  Step-IsLinked first_hash (add_pending tx m) linked = linked
  Step-IsLinked first_hash (remove hashes m) linked = linked
  Step-IsLinked first_hash (validate_and_add rpc now tx validator m) linked =
      validate_and_add_transaction-IsLinked rpc now tx validator first_hash m linked
  Step-IsLinked first_hash (rotation now now' m) linked = linked
  Step-IsLinked first_hash (power validator amount m) linked = linked
  Step-IsLinked first_hash (reward producer amount m) linked = linked
  Step-IsLinked first_hash (delegate now delegator validator amount m) linked =
      same_chain first_hash m (delegate_stake E now delegator validator amount m).1
        (chain-delegate_stake now delegator validator amount m) linked
  Step-IsLinked first_hash (save_height h m) linked = linked

  abbrev chain_or : List BlockData → Option (Manager E) → List BlockData
  chain_or bs none = bs
  chain_or bs (some m) = m.slurachain_data

  released :
      (m m' : Manager E) (written : Option String)
      → elim written [
        | none ↦ none
        | some t ↦ some (record m { last_block_hash = some (E.sha3_hex t) })
      ]
        ≡ some m'
      → m'.slurachain_data ≡ m.slurachain_data
  released m m' none e = sym (ap (chain_or m.slurachain_data) e)
  released m m' (some t) e = sym (ap (chain_or m.slurachain_data) e)

  -- `add_block_to_chain` adds nothing to the chain.
  chain-add_block_to_chain :
      (block : TimestampRelease) (m m' : Manager E)
      → add_block_to_chain E block m ≡ some m'
      → m'.slurachain_data ≡ m.slurachain_data
  unfolding add_block_to_chain
  chain-add_block_to_chain block m m' e = released m m' (E.to_string (release_document block)) e

  IsLinked-genesis : (m : Manager E) → m.slurachain_data ≡ [] → IsLinked E m.last_block_hash m
  IsLinked-genesis m empty = rw empty refl

  -- From the manager that the constructor makes, with genesis releases before the first block and
  -- whatever operations of `Step` in whatever order, each block of the chain names the hash of the
  -- block before it, the first one names the hash of the last genesis release, or none where there
  -- was none, and the manager's last hash is that of the last block, or of that release before
  -- there is a block.
  pub Reachable-IsLinked :
      (h : Host) (network api_key : Option String) (storage : E.rocks.Db) (vm : E.Vm)
      (first_hash : Option String) (m : Manager E)
      → Reachable E (new_with_storage E h network api_key storage vm) first_hash m
      → IsLinked E first_hash m
  unfolding new_with_storage
  Reachable-IsLinked h network api_key storage vm first_hash m here = refl
  Reachable-IsLinked h network api_key storage vm first_hash m
        (genesis {m = before} block steps empty added) =
      IsLinked-genesis m (chain-add_block_to_chain block before m added ∙ empty)
  Reachable-IsLinked h network api_key storage vm first_hash m (later {m = before} steps step) =
      Step-IsLinked first_hash step
        (Reachable-IsLinked h network api_key storage vm first_hash before steps)
