-- ===== src/Uvm/Environment.antt =====
-- The instructions on call data, code, return data, logs, blocks and the hash.
use slura_chain.Base.{
  ℕ, zero, suc, ◌+◌, ◌-◌, ◌*◌, ◌/◌, Bool, true, false, ◌&&◌, not, Option, none, some, List, [], ◌∷◌,
  ◌++◌, String, ltb, leb, nat_beq, if◌then◌else◌, length, nat_eq, string_eq,
}
use slura_chain.Base.Outcome.{and_then}
use slura_chain.Base.Map.{lookup, insert}
use slura_chain.Base.Slices.{take, drop, repeat}
use slura_chain.Base.Text.{join, decimal}
use slura_chain.Base.Word.{wrapping_add}
use slura_chain.Uvm.Word.{word_modulus, from_big_endian, low_u64}
use slura_chain.Uvm.Memory.{as_usize_or_fail, memory_slice_len, copy_loop, byte_or_zero, min_of}
use slura_chain.Uvm.Machine.{
  Machine, Context, Host, UvmWorldState, BlockInfo, Step, advance, panic, charge, push_value,
  with_stack, pop_one, pop_two, pop_three, push_result, halt,
}
use slura_chain.Uvm.Flow.{grow}
use slura_chain.Uvm.Address.{encode_address_to_u256, u256_to_address}

-- `(size + 31) / 32`
abbrev pub words : ℕ → ℕ
words size = (size + 31) / 32

abbrev pub hashed : Context → ℕ → ℕ → Machine → Step
hashed c at len m =
    charge (30 + 6 * words len)
      (push_value (from_big_endian (c.host.keccak_hash (memory_slice_len m.global_mem at len))) m)
      (advance 1)

unfoldable pub op_keccak256 : Context → Machine → Step
op_keccak256 c m = pop_two "Stack underflow on KECCAK256" m λ offset size m.
    grow (as_usize_or_fail offset) (as_usize_or_fail size) "Memory resize failed on KECCAK256" m
      (hashed c (as_usize_or_fail offset) (as_usize_or_fail size))

unfoldable pub op_callvalue : Context → Machine → Step
op_callvalue c m = push_result 2 c.interpreter_args.value m

-- The bytes from `offset` on, 0 where there are none; `offset + i` wraps as a `usize`.
unfoldable pub read_loop : ℕ → ℕ → ℕ → List ℕ → List ℕ
read_loop zero i offset source = []
read_loop (suc rounds) i offset source =
    byte_or_zero source (wrapping_add offset i) ∷ read_loop rounds (i + 1) offset source

unfoldable pub op_calldataload : Context → Machine → Step
op_calldataload c m = pop_one "Stack underflow on CALLDATALOAD" m λ offset m.
    push_result 3
      (from_big_endian (read_loop 32 0 (as_usize_or_fail offset) c.interpreter_args.state_data)) m

unfoldable pub op_calldatasize : Context → Machine → Step
op_calldatasize c m = push_result 2 (length c.interpreter_args.state_data) m

-- The copying instructions: the message adds the offset and the size as words, which panics where
-- the sum is none.
abbrev pub copied : String → ℕ → ℕ → ℕ → ℕ → List ℕ → Machine → Step
copied reason base dest offset size source m =
    let dest_at = as_usize_or_fail dest in
    let offset_at = as_usize_or_fail offset in
    let len = as_usize_or_fail size in
    grow dest_at len reason m λ m.
      if ltb (offset + size) word_modulus
      then charge (base + 3 * words len)
          (record m { global_mem = copy_loop len 0 dest_at offset_at source m.global_mem })
          (advance 1)
      else panic

unfoldable pub op_calldatacopy : Context → Machine → Step
op_calldatacopy c m = pop_three "Stack underflow on CALLDATACOPY" m λ dest offset size m.
    copied "Memory resize failed on CALLDATACOPY" 3 dest offset size c.interpreter_args.state_data m

unfoldable pub op_codesize : Context → Machine → Step
op_codesize c m = push_result 2 (length c.prog) m

unfoldable pub op_codecopy : Context → Machine → Step
op_codecopy c m =
    pop_three "Stack underflow on CODECOPY" m
      λ dest offset size m. copied "Memory resize failed on CODECOPY" 3 dest offset size c.prog m

unfoldable pub op_gasprice : Context → Machine → Step
op_gasprice c m = push_result 2 c.interpreter_args.gas_price m

abbrev code_or_empty : Option (List ℕ) → List ℕ
code_or_empty none = []
code_or_empty (some code) = code

-- The cache of code before the account.
abbrev known_code : UvmWorldState → String → List ℕ
known_code w address = elim (lookup address w.code) [
  | some code ↦ code
  | none ↦ elim (lookup address w.accounts) [ some account ↦ account.code | none ↦ [] ]
]

abbrev stored_code : Host → String → List ℕ
stored_code host address =
    code_or_empty (
      and_then host.storage_manager λ read. read (join (join "account:" address) ":contract_state"))

abbrev has_no_bytes : List ℕ → Bool
has_no_bytes [] = true
has_no_bytes (_ ∷ _) = false

-- The code that EXTCODECOPY copies, and the cache once it was read from the database.
abbrev pub fetched : Host → UvmWorldState → String → List ℕ × UvmWorldState
fetched host w address =
    let known = known_code w address in
    if has_no_bytes known && not (has_no_bytes (stored_code host address))
    then (
      stored_code host address,
      record w { code = insert address (stored_code host address) w.code },
    )
    else (known, w)

abbrev pub copy_code : ℕ → ℕ → ℕ → List ℕ × UvmWorldState → Machine → Step
copy_code dest offset size (code, w) m =
    copied "Memory resize failed on EXTCODECOPY" 100 dest offset size code
      (record m { world_state = w })

abbrev pub on_four : List ℕ → Step → (ℕ → ℕ → ℕ → ℕ → List ℕ → Step) → Step
on_four (a ∷ b ∷ c ∷ d ∷ rest) missing k = k a b c d rest
on_four (a ∷ b ∷ c ∷ []) missing k = missing
on_four (a ∷ b ∷ []) missing k = missing
on_four (a ∷ []) missing k = missing
on_four [] missing k = missing

-- A refused size ends the run before the code is looked up, which changes nothing that is returned.
unfoldable pub op_extcodecopy : Context → Machine → Step
op_extcodecopy c m =
    on_four m.evm_stack (halt "Stack underflow on EXTCODECOPY") λ address dest offset size rest.
      copy_code dest offset size (fetched c.host m.world_state (u256_to_address c.host address))
        (with_stack rest m)

unfoldable pub op_returndatasize : Machine → Step
op_returndatasize m = push_result 2 (length m.return_data) m

unfoldable pub op_returndatacopy : Machine → Step
op_returndatacopy m = pop_three "Stack underflow on RETURNDATACOPY" m λ dest offset size m.
    copied "Memory resize failed on RETURNDATACOPY" 3 dest offset size m.return_data m

-- `get_block_hash` is a stub of 32 zero bytes.
unfoldable pub get_block_hash : UvmWorldState → ℕ → Option (List ℕ)
get_block_hash w block_number = some (repeat 32 0)

unfoldable pub op_blockhash : Machine → Step
op_blockhash m = pop_one "Stack underflow on BLOCKHASH" m λ block_number m.
    let current = m.world_state.block_info.number in
    push_result 20
      (if ltb block_number current && leb (current - block_number) 256
        then from_big_endian (code_or_empty (get_block_hash m.world_state block_number))
        else 0)
      m

abbrev push_info : (BlockInfo → ℕ) → Machine → Step
push_info field m = push_result 2 (field m.world_state.block_info) m

unfoldable pub op_coinbase : Context → Machine → Step
op_coinbase c m = push_info (λ info. encode_address_to_u256 c.host info.coinbase) m

unfoldable pub op_timestamp : Machine → Step
op_timestamp m = push_info (λ info. info.timestamp) m

unfoldable pub op_number : Machine → Step
op_number m = push_info (λ info. info.number) m

unfoldable pub op_prevrandao : Machine → Step
op_prevrandao m = push_info (λ info. from_big_endian info.prev_randao) m

unfoldable pub op_gaslimit : Machine → Step
op_gaslimit m = push_info (λ info. info.gas_limit) m

unfoldable pub op_chainid : Machine → Step
op_chainid m = push_result 2 m.world_state.chain_id m

unfoldable pub op_basefee : Machine → Step
op_basefee m = push_info (λ info. info.base_fee) m

unfoldable pub op_blobhash : Machine → Step
op_blobhash m = pop_one "Stack underflow on BLOBHASH" m λ index m.
    push_result 3
      (if nat_beq index 0 then from_big_endian m.world_state.block_info.blob_hash else 0) m

unfoldable pub op_blobbasefee : Machine → Step
op_blobbasefee m = push_info (λ info. info.blob_base_fee) m

-- `format!("{:064x}", topic)` of each topic, the first of them from the top.
abbrev hex_topics : Host → List ℕ → List String
hex_topics host [] = []
hex_topics host (t ∷ ts) = host.lower_hex t ∷ hex_topics host ts

abbrev pub add_log : Context → ℕ → List ℕ → ℕ → ℕ → Machine → Step
add_log c topic_count topics at len m =
    charge (375 + 375 * topic_count + 8 * len)
      (record m {
        logs =
            m.logs
            ++ (record {
              address = c.interpreter_args.contract_address;
              topics = hex_topics c.host topics;
              data_bytes = memory_slice_len m.global_mem at len;
            }
                ∷ []);
      })
      (advance 1)

abbrev pub logged : Context → ℕ → List ℕ → Machine → Step
logged c topic_count (offset ∷ size ∷ rest) m =
    let at = as_usize_or_fail offset in
    let len = as_usize_or_fail size in
    grow at len "Memory resize failed on LOG" (with_stack (drop topic_count rest) m)
      (add_log c topic_count (take topic_count rest) at len)
logged c topic_count (offset ∷ []) m = halt (join "Stack underflow on LOG" (decimal topic_count))
logged c topic_count [] m = halt (join "Stack underflow on LOG" (decimal topic_count))

unfoldable pub op_log : Context → ℕ → Machine → Step
op_log c opcode m =
    let topic_count = opcode - 0xa0 in
    if ltb (length m.evm_stack) (2 + topic_count)
    then halt (join "Stack underflow on LOG" (decimal topic_count))
    else logged c topic_count m.evm_stack m

-- The payload is only printed; its range panics where it starts beyond its end.
unfoldable pub op_ss7_send : Machine → Step
op_ss7_send m = pop_three "Stack underflow on SS7_SEND" m λ msg_type ptr len m.
    let start = low_u64 ptr in
    let count = low_u64 len in
    let end = min_of (wrapping_add start count) (length m.global_mem) in
    if (ltb 0 count && (ltb 0 start && ltb count 8192)) && ltb end start
    then panic
    else push_result 350 0 m
