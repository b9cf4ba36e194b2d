-- ===== src/Uvm/Machine.antt =====
-- The state of a run, what a run may end with, and the shape that the instructions share.
use slura_chain.Base.{
  ℕ, ◌+◌, Bool, Option, none, some, List, [], ◌∷◌, String, ltb, if◌then◌else◌, nat_eq, string_eq,
}
use slura_chain.Base.Map.{Map}
use slura_chain.Uvm.Word.{word_modulus}

pub record AccountState : Type 0 where
  pub balance : ℕ
  pub nonce : ℕ
  pub code : List ℕ
  pub storage_root : String
  pub is_contract : Bool

pub record BlockInfo : Type 0 where
  pub number : ℕ
  pub timestamp : ℕ
  pub gas_limit : ℕ
  pub difficulty : ℕ
  pub coinbase : String
  pub base_fee : ℕ
  pub blob_base_fee : ℕ
  pub blob_hash : List ℕ
  pub prev_randao : List ℕ

pub record UvmWorldState : Type 0 where
  pub accounts : Map String AccountState
  pub storage : Map String (Map String (List ℕ))
  pub code : Map String (List ℕ)
  pub block_info : BlockInfo
  pub transient_storage : Map ℕ (List ℕ)
  pub chain_id : ℕ

pub record UvmLog : Type 0 where
  pub address : String
  pub topics : List String
  pub data_bytes : List ℕ

-- The fields that the instructions read.
pub record InterpreterArgs : Type 0 where
  pub contract_address : String
  pub sender_address : String
  pub state_data : List ℕ
  pub gas_limit : ℕ
  pub gas_price : ℕ
  pub value : ℕ
  pub caller : String
  pub origin : String

-- What the crates sha3, hex and primitive_types and the database give: the Keccak-256 hash, the
-- two directions of hex text, `format!("{:064x}")`, and `read` of the storage manager.
pub record Host : Type 0 where
  pub keccak_hash : List ℕ → List ℕ
  pub hex_encode : List ℕ → String
  pub hex_decode : String → Option (List ℕ)
  pub lower_hex : ℕ → String
  pub storage_manager : Option (String → Option (List ℕ))

-- What stays the same during a run.
pub record Context : Type 0 where
  pub host : Host
  pub interpreter_args : InterpreterArgs
  pub prog : List ℕ

-- The variables of the loop and the parts of the execution context that instructions change. The
-- top of the stack is the first entry of the list. `gas_remaining` is set to the gas limit of the
-- arguments and never changed, so it is read from there.
pub record Machine : Type 0 where
  pub bytecode_pc : ℕ
  pub evm_stack : List ℕ
  pub global_mem : List ℕ
  pub gas_used : ℕ
  pub world_state : UvmWorldState
  pub logs : List UvmLog
  pub return_data : List ℕ
  pub temp_storage_writes : Map String (List ℕ)

-- The JSON values that `execute_program` returns: the keys of the object and, where it has data,
-- the bytes that the data is decoded from.
pub data Action : Type 0 where
  stopped : Map String (List ℕ) → Action
  returned : List ℕ → Map String (List ℕ) → Action
  reverted : List ℕ → Action
  invalid : Action
  halted : String → Action
  completed : Action

-- How the handling of one instruction ends: at the bottom of the loop with the `advance` that is
-- added there, or with `skip_advance`, by `continue`, by `return`, or by a panic.
pub data Step : Type 0 where
  advance : ℕ → Machine → Step
  skip_advance : Machine → Step
  continue : Machine → Step
  return : Action → Step
  panic : Step

-- `gas_used += cost` panics beyond a word.
unfoldable pub consume_gas_amount : ℕ → Machine → Option Machine
consume_gas_amount cost m =
    if ltb (m.gas_used + cost) word_modulus
    then some (record m { gas_used = m.gas_used + cost })
    else none

abbrev charged : Option Machine → (Machine → Step) → Step
charged none k = panic
charged (some m) k = k m

abbrev pub charge : ℕ → Machine → (Machine → Step) → Step
unfolding consume_gas_amount
charge cost m k = charged (consume_gas_amount cost m) k

abbrev pub push_value : ℕ → Machine → Machine
push_value v m = record m { evm_stack = v ∷ m.evm_stack }

abbrev pub with_stack : List ℕ → Machine → Machine
with_stack rest m = record m { evm_stack = rest }

-- The values that an instruction takes from the stack, or its halt where they are missing.
abbrev pub on_one : List ℕ → Step → (ℕ → List ℕ → Step) → Step
on_one (a ∷ rest) missing k = k a rest
on_one [] missing k = missing

abbrev pub on_two : List ℕ → Step → (ℕ → ℕ → List ℕ → Step) → Step
on_two (a ∷ b ∷ rest) missing k = k a b rest
on_two (a ∷ []) missing k = missing
on_two [] missing k = missing

abbrev pub on_three : List ℕ → Step → (ℕ → ℕ → ℕ → List ℕ → Step) → Step
on_three (a ∷ b ∷ c ∷ rest) missing k = k a b c rest
on_three (a ∷ b ∷ []) missing k = missing
on_three (a ∷ []) missing k = missing
on_three [] missing k = missing

-- `return Ok(halt_json_ebpf(reason))`
abbrev pub halt : String → Step
halt reason = return (halted reason)

abbrev pub pop_one : String → Machine → (ℕ → Machine → Step) → Step
pop_one reason m k = on_one m.evm_stack (halt reason) λ a rest. k a (with_stack rest m)

abbrev pub pop_two : String → Machine → (ℕ → ℕ → Machine → Step) → Step
pop_two reason m k = on_two m.evm_stack (halt reason) λ a b rest. k a b (with_stack rest m)

abbrev pub pop_three : String → Machine → (ℕ → ℕ → ℕ → Machine → Step) → Step
pop_three reason m k = on_three m.evm_stack (halt reason) λ a b c rest. k a b c (with_stack rest m)

-- The value pushed, the gas counted, and on to the next byte.
abbrev pub push_result : ℕ → ℕ → Machine → Step
push_result cost v m = charge cost (push_value v m) (advance 1)

-- The same for a value that may panic.
abbrev pub push_checked : ℕ → Option ℕ → Machine → Step
push_checked cost none m = panic
push_checked cost (some v) m = push_result cost v m
