-- ===== src/Parallel/Speculate.antt =====
-- Speculative execution: the reload of a contract, its call, and the write set of the result.
use slura_chain.Base.{
  ℕ, String, Option, none, some, List, [], ◌∷◌, ◌==◌, nat_eq, string_eq, if◌then◌else◌,
}
use slura_chain.Base.Map.{Map, lookup, insert}
use slura_chain.Base.Outcome.{Result, ok, err}
use slura_chain.Base.Text.{join}
use slura_chain.Parallel.Types.{Machine, Vm, ParallelTransaction, Engine}

-- The cell at `a` gets the contents `v`.
abbrev pub set_cell {ℓ} : {V : Type ℓ} → ℕ → V → (ℕ → V) → ℕ → V
set_cell a v cells b = if a == b then v else cells b

module _ (M : Machine) where
  open M use {Value, Rest, Db, Bytes}

  -- One entry of the scan: a slot of the contract, put where execution reads it.
  abbrev pub reload_entry :
      String
      → String
      → String × Bytes
      → Map String Bytes × Vm Value Rest Db Bytes
      → Map String Bytes × Vm Value Rest Db Bytes
  reload_entry prefix contract (key, value) (reloaded, vm) =
      if M.starts_with key prefix
      then (
        insert (M.trim_start_matches key prefix) value reloaded,
        elim (lookup contract vm.accounts) [
          | none ↦ vm
          | some resources ↦ record vm {
            accounts =
                insert contract
                  (insert (M.trim_start_matches key prefix)
                    (M.string_value (join "0x" (M.hex_encode value))) resources)
                  vm.accounts;
          }
        ],
      )
      else (reloaded, vm)

  unfoldable pub reload_entries :
      String
      → String
      → List (String × Bytes)
      → Map String Bytes × Vm Value Rest Db Bytes
      → Map String Bytes × Vm Value Rest Db Bytes
  reload_entries prefix contract [] found = found
  reload_entries prefix contract (entry ∷ entries) found =
      reload_entries prefix contract entries (reload_entry prefix contract entry found)

  -- A scan that fails is printed, and nothing is reloaded.
  abbrev pub reload :
      String
      → String
      → Result (List (String × Bytes)) String
      → Vm Value Rest Db Bytes
      → Map String Bytes × Vm Value Rest Db Bytes
  reload prefix contract (err e) vm = ([], vm)
  reload prefix contract (ok entries) vm = reload_entries prefix contract entries ([], vm)

  -- The contract's storage is replaced by what was reloaded, if there is a storage manager.
  unfoldable pub reload_contract : String → Vm Value Rest Db Bytes → Vm Value Rest Db Bytes
  unfolding reload_entries
  reload_contract contract vm = elim vm.storage_manager [
    | none ↦ vm
    | some db ↦
        let prefix = join "storage:" (join contract ":") in
        let (reloaded, vm') = reload prefix contract (M.scan_prefix db prefix) vm in
        record vm' { world_storage = insert contract reloaded vm'.world_storage }
  ]

  -- Only values that are texts `0x` and hex digits go into the write set.
  abbrev pub write_of : Value → Option Bytes
  write_of value = elim (M.as_str value) [
    | none ↦ none
    | some s ↦ if M.starts_with s "0x" then M.hex_decode (M.skip_two s) else none
  ]

  unfoldable pub extract_writes : List (String × Value) → Map String Bytes → Map String Bytes
  extract_writes [] writes = writes
  extract_writes ((slot, value) ∷ rest) writes =
      extract_writes rest
        (elim (write_of value) [ none ↦ writes | some bytes ↦ insert slot bytes writes ])

  abbrev pub with_writes : ParallelTransaction M → Result Value String → Engine M → Engine M
  with_writes tx (err e) engine = engine
  with_writes tx (ok result) engine = elim (M.storage_of result) [
    | none ↦ engine
    | some written ↦ record engine {
      writes =
          set_cell tx.write_set (extract_writes written (engine.writes tx.write_set)) engine.writes;
    }
  ]

  -- The lock on the virtual machine is held from the reload to the result.
  unfoldable pub execute_speculative_transaction :
      ParallelTransaction M → Engine M → Result Value String × Engine M
  unfolding reload_contract extract_writes
  execute_speculative_transaction tx engine =
      let vm = reload_contract tx.contract_address engine.vm in
      let (result, vm') =
        M.execute_module vm tx.contract_address tx.function_name tx.args (some tx.sender)
          tx.calldata in
      (result, with_writes tx result (record engine { vm = vm' }))
