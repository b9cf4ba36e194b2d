-- ===== src/Tests/Uvm.antt =====
-- The interpreter at concrete inputs.
use slura_chain.Base.{
  ◌<◌, ℕ, ◌-◌, ◌^◌, ◌≡◌, refl, inl, inr, true, none, some, List, [], ◌∷◌, arith, String, nat_eq,
  string_eq,
}
use slura_chain.Base.Map.{Map, lookup}
use slura_chain.Uvm.Word.{to_big_endian, from_big_endian}
use slura_chain.Uvm.Machine.{
  Machine, Context, Host, InterpreterArgs, UvmWorldState, Step, advance, push_result, push_value,
  with_stack, halt, consume_gas_amount,
}
use slura_chain.Uvm.Arithmetic.{op_addmod, op_mulmod}
use slura_chain.Uvm.Flow.{op_mstore, op_mload, op_jumpdest}
use slura_chain.Uvm.State.{op_sstore, op_sload, is_hash_key, get_storage}
use slura_chain.Uvm.Address.{
  extract_function_selector, encode_address_to_u256, encode_address_to_u64,
}
use slura_chain.Uvm.Run.{again, run, round, dispatch, bottom}
use slura_chain.Uvm.Run.Endless.{endless, before_dest, run-endless}
use slura_chain.Uvm.Run.Reachable.{start, next, Bounded, Reachable-Bounded}
use slura_chain.Uvm.Laws.Words.{modular-exact}
use slura_chain.Uvm.Laws.Memory.{op_mload-op_mstore}
use slura_chain.Uvm.Laws.Storage.{op_sload-op_sstore, op_sload-stale}
use slura_chain.Uvm.Laws.Stack.{round-op_mcopy}
use slura_chain.Uvm.Word.Bytes.{length-to_big_endian}
use slura_chain.Uvm.State.{stored_slot, set_storage}
use slura_chain.Uvm.Execute.{initial_world, prepare, unauthorized, owned_world, first_machine}
use slura_chain.Uvm.Execute.Owner.{
  prepare-unauthorized, prepare-first_caller, owner_bytes, caller_word,
}

-- A host whose hexadecimal text is always the same, and a database with the word 7 for each key.
abbrev toy_host : Host
toy_host = record {
  keccak_hash = λ bytes. bytes;
  hex_encode = λ bytes. "8da5cb5b";
  hex_decode = λ s. none;
  lower_hex = λ n. "00000000000000000000000000000000000000000000000000000000000000ab";
  storage_manager = some (λ key. some (to_big_endian 7));
}

abbrev toy_args : InterpreterArgs
toy_args = record {
  contract_address = "contract";
  sender_address = "alice";
  state_data = 1 ∷ 2 ∷ 3 ∷ 4 ∷ [];
  gas_limit = 10;
  gas_price = 1;
  value = 0;
  caller = "bob";
  origin = "alice";
}

abbrev toy_context : List ℕ → Context
toy_context code = record { host = toy_host; interpreter_args = toy_args; prog = code }

-- A contract whose slot 0 holds 5.
abbrev owned : Map String (Map String (List ℕ))
owned =
    ("contract", ("0000000000000000000000000000000000000000000000000000000000000000", 5 ∷ []) ∷ [])
    ∷ []

abbrev toy_world : Map String (Map String (List ℕ)) → UvmWorldState
unfolding initial_world
toy_world storage = initial_world 0 storage

abbrev toy_machine : List ℕ → Machine
toy_machine stack = record {
  bytecode_pc = 0;
  evm_stack = stack;
  global_mem = 1 ∷ 2 ∷ 3 ∷ [];
  gas_used = 0;
  world_state = record {
    accounts = [];
    storage = [];
    code = [];
    block_info = record {
      number = 1;
      timestamp = 0;
      gas_limit = 30000000;
      difficulty = 1;
      coinbase = "";
      base_fee = 0;
      blob_base_fee = 0;
      blob_hash = [];
      prev_randao = [];
    };
    transient_storage = [];
    chain_id = 45056;
  };
  logs = [];
  return_data = [];
  temp_storage_writes = [];
}

-- The instructions that run other code, here refused.
abbrev no_system : ℕ → Machine → Step
no_system opcode m = halt "refused"

-- A modulus and numbers close to 2^256.
abbrev big : Machine
big = toy_machine ((2 ^ 256 - 2) ∷ (2 ^ 256 - 3) ∷ (2 ^ 256 - 1) ∷ 4 ∷ [])

modular-exact_example :
    (op_addmod big ≡ push_result 8 (2 ^ 256 - 4) (with_stack (4 ∷ []) big))
    × (op_mulmod big ≡ push_result 8 2 (with_stack (4 ∷ []) big))
modular-exact_example =
    modular-exact big (2 ^ 256 - 2) (2 ^ 256 - 3) (2 ^ 256 - 1) (4 ∷ []) refl (omega arith)
      (omega arith) (omega arith)

op_mload-op_mstore_example :
    (after : Machine) × (op_mstore (toy_machine (64 ∷ 777 ∷ 5 ∷ [])) ≡ advance 1 after)
    × (after.evm_stack ≡ 5 ∷ [])
    × (op_mload (push_value 64 after) ≡ push_result 3 777 after)
op_mload-op_mstore_example =
    op_mload-op_mstore (toy_machine (64 ∷ 777 ∷ 5 ∷ [])) 64 777 (5 ∷ []) refl (omega arith)
      (omega arith) (omega arith) (omega arith)

hash_key : is_hash_key "00000000000000000000000000000000000000000000000000000000000000ab" ≡ true
unfolding is_hash_key
hash_key = refl

op_sload-op_sstore_example :
    (after : Machine) × (op_sstore (toy_context []) (toy_machine (171 ∷ 9 ∷ [])) ≡ advance 1 after)
    × (after.evm_stack ≡ [])
    × (lookup (toy_host.lower_hex 171) after.temp_storage_writes ≡ some (to_big_endian 9))
    × (op_sload (toy_context []) (push_value 171 after) ≡ push_result 100 9 after)
op_sload-op_sstore_example =
    op_sload-op_sstore (toy_context []) (toy_machine (171 ∷ 9 ∷ [])) 171 9 [] refl (omega arith)
      (omega arith) (omega arith) hash_key

stored_word : stored_slot toy_host "contract" (toy_host.lower_hex 171) ≡ some (to_big_endian 7)
unfolding to_big_endian
stored_word = refl

op_sload-stale_example :
    (after : Machine) × (op_sstore (toy_context []) (toy_machine (171 ∷ 0 ∷ [])) ≡ advance 1 after)
    × (after.evm_stack ≡ [])
    × (lookup (toy_host.lower_hex 171) after.temp_storage_writes ≡ some (to_big_endian 0))
    × (op_sload (toy_context []) (push_value 171 after)
        ≡ push_result 100 (from_big_endian (to_big_endian 7)) (record after {
          world_state =
              set_storage after.world_state "contract" (toy_host.lower_hex 171) (to_big_endian 7);
        }))
    × (0 < from_big_endian (to_big_endian 7))
op_sload-stale_example =
    op_sload-stale (toy_context []) (toy_machine (171 ∷ 0 ∷ [])) 171 (to_big_endian 7) [] refl
      (omega arith) hash_key stored_word (length-to_big_endian 7)

run-endless_example : run no_system 1000 (toy_context endless) (toy_machine []) ≡ none
run-endless_example =
    run-endless no_system 1000 (toy_context endless) (toy_machine []) refl
      (before_dest refl (omega arith)) (omega arith)

round-op_mcopy_example :
    (after : Machine) × (round no_system (toy_context (0x5e ∷ [])) (toy_machine (0 ∷ 1 ∷ 2 ∷ []))
      ≡ again after)
    × (after.bytecode_pc ≡ 0)
    × (after.evm_stack ≡ [])
round-op_mcopy_example =
    round-op_mcopy no_system (toy_context (0x5e ∷ [])) (toy_machine (0 ∷ 1 ∷ 2 ∷ [])) 1 2 [] refl
      refl (omega arith)

abbrev after_jumpdest : Machine
after_jumpdest = record (toy_machine []) { bytecode_pc = 1; gas_used = 1 }

Reachable-Bounded_example : Bounded (toy_machine []) after_jumpdest
unfolding round dispatch op_jumpdest consume_gas_amount bottom
Reachable-Bounded_example =
    Reachable-Bounded no_system (toy_context endless) (toy_machine []) after_jumpdest
      (λ opcode m. tt) (omega arith) (next start refl)

prepare-unauthorized_example :
    prepare (toy_context []) (toy_world owned) ≡ some (inl (unauthorized (toy_context [])))
unfolding extract_function_selector get_storage is_hash_key encode_address_to_u256
    encode_address_to_u64 initial_world
prepare-unauthorized_example =
    prepare-unauthorized (toy_context []) (toy_world owned) "0x8da5cb5b" refl refl refl
      (omega arith) (λ same. absurd (omega (arith, same)))

prepare-first_caller_example :
    (prepare (toy_context []) (toy_world [])
      ≡ some (inr (first_machine (toy_context []) (owned_world (toy_context []) (toy_world [])))))
    × (owner_bytes (toy_context []) (owned_world (toy_context []) (toy_world []))
        ≡ to_big_endian (caller_word (toy_context [])))
unfolding get_storage is_hash_key encode_address_to_u256 encode_address_to_u64 initial_world
prepare-first_caller_example =
    prepare-first_caller (toy_context []) (toy_world []) refl (omega arith)
