-- ===== src/Uvm/Execute.antt =====
-- `execute_program` around its loop: the world that a run starts from, the owner check, and the run.
pub mod Owner
use slura_chain.Base.{
  ℕ, zero, suc, ◌+◌, ◌-◌, ◌*◌, ◌/◌, ◌%◌, ◌^◌, ◌≤◌, ◌<◌, ◌≡◌, refl, sym, ap, ◌∙◌, ◌≢◌, ◌↔◌, ◌⊎◌, inl,
  inr, Bool, true, false, ◌&&◌, ◌||◌, not, Option, none, some, List, [], ◌∷◌, ◌++◌, map, arith,
  String, ltb, leb, nat_beq, if◌then◌else◌, length, length-append, All, Member, last, first, keep,
  find, any, ◌==◌, nat_eq, string_eq, beq_self, Bool-cases, Option-cases, is_some,
}
use slura_chain.Base.Outcome.{and_then}
use slura_chain.Base.Map.{Map}
use slura_chain.Base.Slices.{repeat}
use slura_chain.Uvm.Word.{to_big_endian}
use slura_chain.Uvm.Machine.{
  Machine, Context, Host, UvmWorldState, BlockInfo, Step, Action, reverted,
}
use slura_chain.Uvm.State.{set_balance}
use slura_chain.Uvm.Address.{
  encode_address_to_u256, extract_function_selector, ensure_contract_owner_initialized,
  auto_validate_owner_permission,
}
use slura_chain.Uvm.Run.{Round, done, panicked, run}

-- `UvmWorldState::default()` at a time of the system clock, with the initial storage.
unfoldable pub initial_world : ℕ → Map String (Map String (List ℕ)) → UvmWorldState
initial_world now initial_storage = record {
  accounts = [];
  storage = initial_storage;
  code = [];
  block_info = record {
    number = 1;
    timestamp = now;
    gas_limit = 30000000;
    difficulty = 1;
    coinbase = "*coinbase*#miner#";
    base_fee = 0;
    blob_base_fee = 0;
    blob_hash = repeat 32 0;
    prev_randao = repeat 32 0;
  };
  transient_storage = [];
  chain_id = 45056;
}

-- `OwnableUnauthorizedAccount(address)` with the caller.
abbrev pub unauthorized : Context → Action
unauthorized c = reverted (
    0x11
    ∷ 0x8c
    ∷ 0xda
    ∷ 0xa7
    ∷ to_big_endian (encode_address_to_u256 c.host c.interpreter_args.caller))

abbrev pub allowed : Context → UvmWorldState → Option String → Option Bool
allowed c w none = some true
allowed c w (some selector) =
    auto_validate_owner_permission c.host w c.interpreter_args.contract_address
      c.interpreter_args.caller selector

-- The variables at the first round: 1 ETH for the sender and 64 KiB of memory.
abbrev pub first_machine : Context → UvmWorldState → Machine
first_machine c w = record {
  bytecode_pc = 0;
  evm_stack = [];
  global_mem = repeat 0x10000 0;
  gas_used = 0;
  world_state = set_balance w c.interpreter_args.sender_address 1000000000000000000;
  logs = [];
  return_data = [];
  temp_storage_writes = [];
}

abbrev pub owned_world : Context → UvmWorldState → UvmWorldState
owned_world c w =
    ensure_contract_owner_initialized c.host w c.interpreter_args.contract_address
      c.interpreter_args.caller

abbrev pub admitted : Context → UvmWorldState → Bool → Action ⊎ Machine
admitted c w true = inr (first_machine c w)
admitted c w false = inl (unauthorized c)

-- What `execute_program` does before its loop; `none` is a panic.
unfoldable pub prepare : Context → UvmWorldState → Option (Action ⊎ Machine)
prepare c w =
    and_then
      (allowed c (owned_world c w) (extract_function_selector c.host c.interpreter_args.state_data))
      λ may. some (admitted c (owned_world c w) may)

abbrev after_prepare : Option (Action ⊎ Machine) → (Machine → Option Round) → Option Round
after_prepare none k = some panicked
after_prepare (some (inl a)) k = some (done a)
after_prepare (some (inr m)) k = k m

unfoldable pub execute_program :
    (ℕ → Machine → Step) → ℕ → Context → ℕ → Map String (Map String (List ℕ)) → Option Round
execute_program system fuel c now initial_storage =
    after_prepare (prepare c (initial_world now initial_storage)) (run system fuel c)
