-- ===== src/Uvm/Flow.antt =====
-- The instructions on memory, jumps and the stack: 0x50 to 0x53, 0x56 to 0x5b, 0x5e to 0x9f, and
-- the ends of a run.
use slura_chain.Base.{
  ℕ, zero, suc, ◌+◌, ◌-◌, ◌*◌, ◌/◌, ◌%◌, ◌^◌, Option, none, some, List, [], ◌∷◌, ◌++◌, String, ltb,
  leb, nat_beq, if◌then◌else◌, length, nat_eq, string_eq,
}
use slura_chain.Base.Outcome.{and_then}
use slura_chain.Base.Slices.{get_elem?, take, drop, set_elem, overwrite, repeat}
use slura_chain.Base.Text.{join, decimal}
use slura_chain.Base.Word.{wrapping_add, saturating_add, saturating_sub}
use slura_chain.Uvm.Word.{low_u64, from_big_endian, to_big_endian}
use slura_chain.Uvm.Memory.{
  as_usize_or_fail, as_usize_saturated, resize_memory_ebpf, memory_slice_len, min_of, byte_or_zero,
  padded,
}
use slura_chain.Uvm.Machine.{
  Machine, Context, Step, advance, skip_advance, continue, return, panic, stopped, returned,
  reverted, invalid, charge, push_value, with_stack, pop_one, pop_two, pop_three, push_result, halt,
}

abbrev pub grown : Option (List ℕ) → String → Machine → (Machine → Step) → Step
grown none reason m k = halt reason
grown (some mem) reason m k = k (record m { global_mem = mem })

-- `if !resize_memory_ebpf(…) { return … }`
abbrev pub grow : ℕ → ℕ → String → Machine → (Machine → Step) → Step
grow offset size reason m k = grown (resize_memory_ebpf m.global_mem offset size) reason m k

unfoldable pub op_pop : Machine → Step
op_pop m = pop_one "Stack underflow on POP" m λ value m. charge 2 m (advance 1)

abbrev pub load_word : ℕ → Machine → Step
load_word at m = push_result 3 (from_big_endian (padded (memory_slice_len m.global_mem at 32))) m

unfoldable pub op_mload : Machine → Step
op_mload m = pop_one "Stack underflow on MLOAD" m λ offset m.
    grow (as_usize_or_fail offset) 32 "Memory resize failed on MLOAD" m
      (load_word (as_usize_or_fail offset))

abbrev pub bytes_stored : ℕ → List ℕ → Machine → Machine
bytes_stored at bytes m =
    if leb (at + length bytes) (length m.global_mem)
    then record m { global_mem = overwrite at bytes m.global_mem }
    else m

abbrev pub store_word : ℕ → ℕ → Machine → Step
store_word at value m = charge 3 (bytes_stored at (to_big_endian value) m) (advance 1)

unfoldable pub op_mstore : Machine → Step
op_mstore m = pop_two "Stack underflow on MSTORE" m λ offset value m.
    grow (as_usize_or_fail offset) 32 "Memory resize failed on MSTORE" m
      (store_word (as_usize_or_fail offset) value)

abbrev pub byte_stored : ℕ → ℕ → Machine → Machine
byte_stored at value m =
    if ltb at (length m.global_mem)
    then record m { global_mem = set_elem at (value % 256) m.global_mem }
    else m

abbrev pub store_byte : ℕ → ℕ → Machine → Step
store_byte at value m = charge 3 (byte_stored at value m) (advance 1)

unfoldable pub op_mstore8 : Machine → Step
op_mstore8 m = pop_two "Stack underflow on MSTORE8" m λ offset value m.
    grow (as_usize_or_fail offset) 1 "Memory resize failed on MSTORE8" m
      (store_byte (as_usize_or_fail offset) value)

unfoldable pub op_jump : Machine → Step
op_jump m =
    pop_one "Stack underflow on JUMP" m
      λ target m. charge 8 (record m { bytecode_pc = as_usize_saturated target }) skip_advance

unfoldable pub op_jumpi : Machine → Step
op_jumpi m = pop_two "Stack underflow on JUMPI" m λ target cond m.
    if nat_beq cond 0
    then charge 10 m (advance 1)
    else charge 10 (record m { bytecode_pc = as_usize_saturated target }) skip_advance

unfoldable pub op_pc : Machine → Step
op_pc m = push_result 2 m.bytecode_pc m

unfoldable pub op_msize : Machine → Step
op_msize m = push_result 2 (length m.global_mem) m

unfoldable pub op_gas : Context → Machine → Step
op_gas c m = push_result 2 c.interpreter_args.gas_limit m

unfoldable pub op_jumpdest : Machine → Step
op_jumpdest m = charge 1 m (advance 1)

abbrev pub max_of : ℕ → ℕ → ℕ
max_of a b = if leb a b then b else a

-- The bytes that MCOPY moves, read before any is written.
abbrev pub moved : ℕ → ℕ → ℕ → Machine → Machine
moved dst src len m =
    let size = length m.global_mem in
    let copy_len = min_of len (min_of (saturating_sub size dst) (saturating_sub size src)) in
    if ltb 0 copy_len
    then record m {
      global_mem = overwrite dst (take copy_len (drop src m.global_mem)) m.global_mem;
    }
    else m

abbrev pub copy_within : ℕ → ℕ → ℕ → Machine → Step
copy_within dst src len m =
    if nat_beq len 0
    then continue m
    else (grow (max_of (saturating_add dst len) (saturating_add src len)) 0
        "Memory resize failed on MCOPY" m λ m. advance 1 (moved dst src len m))

-- The length is on top, then the source, then the destination. Without a length the loop goes on
-- by `continue`. Each offset is a `usize`, so the sums of the message fit a word.
unfoldable pub op_mcopy : Machine → Step
op_mcopy m = pop_three "Stack underflow on MCOPY" m λ len src dst m.
    charge (3 + 3 * (wrapping_add (as_usize_or_fail len) 31 / 32)) m
      (copy_within (as_usize_or_fail dst) (as_usize_or_fail src) (as_usize_or_fail len))

unfoldable pub op_push0 : Machine → Step
op_push0 m = push_result 2 0 m

-- `data[32 - push_size..]`: the bytes that follow the instruction, 0 beyond the end of the code.
unfoldable pub push_data : ℕ → ℕ → List ℕ → List ℕ
push_data zero at prog = []
push_data (suc n) at prog = byte_or_zero prog at ∷ push_data n (at + 1) prog

unfoldable pub op_push : Context → ℕ → Machine → Step
op_push c opcode m =
    let push_size = opcode - 0x60 + 1 in
    charge 3
      (push_value
        (from_big_endian
          (repeat (32 - push_size) 0 ++ push_data push_size (m.bytecode_pc + 1) c.prog))
        m)
      (advance (1 + push_size))

abbrev pub found_or_halt : Option ℕ → String → (ℕ → Step) → Step
found_or_halt none reason k = halt reason
found_or_halt (some v) reason k = k v

-- The entry `dup_index - 1` below the top, which is missing when the stack is too short.
unfoldable pub op_dup : ℕ → Machine → Step
op_dup opcode m =
    let dup_index = opcode - 0x80 + 1 in
    found_or_halt (get_elem? m.evm_stack (dup_index - 1))
      (join "Stack underflow on DUP" (decimal dup_index)) λ value. push_result 3 value m

-- `swap(len - 1, len - 1 - n)`: the top and the entry `n` below it, for `n` above 0.
abbrev pub swapped : ℕ → List ℕ → Option (List ℕ)
swapped n [] = none
swapped n (a ∷ rest) = and_then (get_elem? rest (n - 1)) λ b. some (b ∷ set_elem (n - 1) a rest)

abbrev pub swap_or_halt : Option (List ℕ) → String → Machine → Step
swap_or_halt none reason m = halt reason
swap_or_halt (some stack) reason m = charge 3 (with_stack stack m) (advance 1)

unfoldable pub op_swap : ℕ → Machine → Step
op_swap opcode m =
    let swap_index = opcode - 0x90 + 1 in
    swap_or_halt (swapped swap_index m.evm_stack)
      (join "Stack underflow on SWAP" (decimal swap_index)) m

unfoldable pub op_stop : Machine → Step
op_stop m = return (stopped m.temp_storage_writes)

abbrev pub return_slice : ℕ → ℕ → Machine → Step
return_slice at len m =
    let src = memory_slice_len m.global_mem at len in
    return (returned (src ++ repeat (len - length src) 0) m.temp_storage_writes)

-- `vec![0; size]` panics above `isize::MAX`; a size beyond the memory of the host is not modelled.
unfoldable pub op_return : Machine → Step
op_return m = pop_two "Stack underflow on RETURN" m λ offset size m.
    let at = as_usize_or_fail offset in
    let len = as_usize_or_fail size in
    if leb (2 ^ 63) len
    then panic
    else if ltb 0 len
    then grow at len "Memory resize failed on RETURN" m (return_slice at len)
    else return (returned [] m.temp_storage_writes)

-- The writes are added to a copy of the result, not to the result. A range with its start beyond
-- its end panics.
unfoldable pub op_revert : Machine → Step
op_revert m = pop_two "Stack underflow on REVERT" m λ offset size m.
    let at = low_u64 offset in
    let end = wrapping_add at (low_u64 size) in
    if leb end (length m.global_mem)
    then (if leb at end then return (reverted (take (end - at) (drop at m.global_mem))) else panic)
    else (if leb at (length m.global_mem) then return (reverted (drop at m.global_mem)) else panic)

unfoldable pub op_invalid : Machine → Step
op_invalid m = return invalid
