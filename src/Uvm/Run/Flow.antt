-- ===== src/Uvm/Run/Flow.antt =====
-- The instructions on memory, storage, jumps and the ends of a run are safe.
use slura_chain.Base.{
  ℕ, ◌+◌, ◌*◌, ◌/◌, ◌%◌, ◌≤◌, ◌<◌, ◌≡◌, inl, List, arith, nat_beq, length, nat_eq, string_eq,
}
use slura_chain.Base.Map.{Entries}
use slura_chain.Base.Slices.{
  take, drop, overwrite, length-overwrite, length-take, length-drop, length-set_elem,
}
use slura_chain.Base.Word.{saturating_add, saturating_sub, wrapping_add}
use slura_chain.Uvm.Word.{to_big_endian}
use slura_chain.Uvm.Memory.{as_usize_or_fail, min_of}
use slura_chain.Uvm.Machine.{
  Machine, Context, Step, advance, charge, consume_gas_amount, with_stack, push_checked,
}
use slura_chain.Uvm.Flow.{
  bytes_stored, byte_stored, moved, load_word, store_word, store_byte, copy_within, max_of, grow,
  op_pop, op_mload, op_mstore, op_mstore8, op_jump, op_jumpi, op_pc, op_msize, op_gas, op_jumpdest,
  op_mcopy, op_push0, op_return, op_revert, op_invalid,
}
use slura_chain.Uvm.State.{op_sload, op_sstore, op_tload, op_tstore, loaded, word_of}
use slura_chain.Uvm.Environment.{op_ss7_send}
use slura_chain.Uvm.Run.{flow}
use slura_chain.Uvm.Run.Safe.{
  Safe, Follows, IsSafe, charge-Safe, either-Safe, charge_then-Safe, with_gas, grow-Safe,
  pushed-Safe, unary-Safe, follows_stack, pop_one-Safe, pop_three-Safe, grow_two-Safe, with_mem,
  push_checked-Safe,
}

bytes_stored-Follows :
    (before m : Machine) (at : ℕ) (bytes : List ℕ)
    → Follows before m
    → Follows before (bytes_stored at bytes m)
bytes_stored-Follows before m at bytes h = ground (
  arith,
  λ (p : at + length bytes ≤ length m.global_mem). length-overwrite at bytes m.global_mem p,
)

byte_stored-Follows :
    (before m : Machine) (at value : ℕ) → Follows before m → Follows before (byte_stored at value m)
byte_stored-Follows before m at value h =
    ground (arith, length-set_elem at (value % 256) m.global_mem)

-- Bytes moved within a list leave its length.
moved_length :
    (mem : List ℕ) (dst src n : ℕ)
    → src + n ≤ length mem
    → dst + n ≤ length mem
    → length (overwrite dst (take n (drop src mem)) mem) ≡ length mem
moved_length mem dst src n hs hd =
    let part = length-take n (drop src mem) (omega (arith, length-drop src mem)) in
    length-overwrite dst (take n (drop src mem)) mem (omega (arith, part))

moved-Follows :
    (before m : Machine) (dst src len : ℕ) → Follows before m → Follows before (moved dst src len m)
moved-Follows before m dst src len h =
    let size = length m.global_mem in
    let n = min_of len (min_of (saturating_sub size dst) (saturating_sub size src)) in
    ground (arith, moved_length m.global_mem dst src n, λ (p : 0 < n). h)

abbrev mload_at : ℕ → Machine → Step
mload_at offset m =
    grow (as_usize_or_fail offset) 32 "Memory resize failed on MLOAD" m
      (load_word (as_usize_or_fail offset))

op_mload-Safe : (m : Machine) → Safe m (op_mload m)
unfolding op_mload
op_mload-Safe m = pop_one-Safe _ m mload_at λ offset rest.
    grow-Safe m (with_stack rest m) (as_usize_or_fail offset) 32 _
      (load_word (as_usize_or_fail offset)) (follows_stack m rest)
      λ mem grows. charge-Safe m _ 3 1 grows

op_mstore-Safe : (m : Machine) → Safe m (op_mstore m)
unfolding op_mstore
op_mstore-Safe m =
    grow_two-Safe _ m _ (λ offset value. as_usize_or_fail offset) (λ offset value. 32)
      (λ offset value. store_word (as_usize_or_fail offset) value)
      λ offset value after h.
        charge-Safe m _ 3 1
          (bytes_stored-Follows m after (as_usize_or_fail offset) (to_big_endian value) h)

op_mstore8-Safe : (m : Machine) → Safe m (op_mstore8 m)
unfolding op_mstore8
op_mstore8-Safe m =
    grow_two-Safe _ m _ (λ offset value. as_usize_or_fail offset) (λ offset value. 1)
      (λ offset value. store_byte (as_usize_or_fail offset) value)
      λ offset value after h.
        charge-Safe m _ 3 1 (byte_stored-Follows m after (as_usize_or_fail offset) value h)

abbrev sload_at : Context → ℕ → Machine → Step
sload_at c key m =
    let found =
      loaded c.host c.interpreter_args.contract_address (c.host.lower_hex key) m.world_state in
    push_checked 100 (word_of found.0) (record m { world_state = found.1 })

op_sload-Safe : (c : Context) (m : Machine) → Safe m (op_sload c m)
unfolding op_sload
op_sload-Safe c m =
    pop_one-Safe _ m (sload_at c) λ key rest. push_checked-Safe m _ 100 _ (follows_stack m rest)

op_sstore-Safe : (c : Context) (m : Machine) → Safe m (op_sstore c m)
unfolding op_sstore consume_gas_amount
op_sstore-Safe c m = ground arith

op_jump-Safe : (m : Machine) → Safe m (op_jump m)
unfolding op_jump consume_gas_amount
op_jump-Safe m = ground arith

op_jumpi-Safe : (m : Machine) → Safe m (op_jumpi m)
unfolding op_jumpi consume_gas_amount
op_jumpi-Safe m = ground arith

op_tstore-Safe : (m : Machine) → Safe m (op_tstore m)
unfolding op_tstore consume_gas_amount
op_tstore-Safe m = ground arith

abbrev mcopy_at : ℕ → ℕ → ℕ → Machine → Step
mcopy_at len src dst m =
    charge (3 + 3 * (wrapping_add (as_usize_or_fail len) 31 / 32)) m
      (copy_within (as_usize_or_fail dst) (as_usize_or_fail src) (as_usize_or_fail len))

op_mcopy-Safe : (m : Machine) → Safe m (op_mcopy m)
unfolding op_mcopy
op_mcopy-Safe m = pop_three-Safe _ m mcopy_at λ len src dst rest fewer.
    let dst_at = as_usize_or_fail dst in
    let src_at = as_usize_or_fail src in
    let len_at = as_usize_or_fail len in
    charge_then-Safe m (with_stack rest m) (3 + 3 * (wrapping_add len_at 31 / 32))
      (copy_within dst_at src_at len_at)
      λ gas more.
        either-Safe m (nat_beq len_at 0) _ _ ((omega arith, inl (omega arith), more), fewer)
          (grow-Safe m (with_gas gas (with_stack rest m))
            (max_of (saturating_add dst_at len_at) (saturating_add src_at len_at)) 0 _
            (λ m. advance 1 (moved dst_at src_at len_at m)) (omega arith, inl (omega arith), more)
            λ mem grows.
              moved-Follows m (with_mem mem (with_gas gas (with_stack rest m))) dst_at src_at len_at
                grows)

op_ss7_send-Safe : (m : Machine) → Safe m (op_ss7_send m)
unfolding op_ss7_send consume_gas_amount
op_ss7_send-Safe m = ground arith

op_return-Safe : (m : Machine) → Safe m (op_return m)
unfolding op_return
op_return-Safe m = ground arith

op_revert-Safe : (m : Machine) → Safe m (op_revert m)
unfolding op_revert
op_revert-Safe m = ground arith

pub flow-IsSafe : (c : Context) → Entries IsSafe (flow c)
unfolding op_pop op_pc op_msize op_gas op_jumpdest op_tload op_push0 op_invalid
flow-IsSafe c = (
  (λ m.
      pop_one-Safe _ m (λ v m. charge 2 m (advance 1))
        λ a rest. charge-Safe m (with_stack rest m) 2 1 (follows_stack m rest)),
  (
    op_mload-Safe,
    (
      op_mstore-Safe,
      (
        op_mstore8-Safe,
        (
          op_sload-Safe c,
          (
            op_sstore-Safe c,
            (
              op_jump-Safe,
              (
                op_jumpi-Safe,
                (
                  (λ m. pushed-Safe m _ _),
                  (
                    (λ m. pushed-Safe m _ _),
                    (
                      (λ m. pushed-Safe m _ _),
                      (
                        (λ m. charge-Safe m m 1 1 (omega arith, inl (omega arith), omega arith)),
                        (
                          (λ m. unary-Safe _ m _ _),
                          (
                            op_tstore-Safe,
                            (
                              op_mcopy-Safe,
                              (
                                (λ m. pushed-Safe m _ _),
                                (
                                  op_ss7_send-Safe,
                                  (op_return-Safe, (op_revert-Safe, ((λ m. tt), tt))),
                                ),
                              ),
                            ),
                          ),
                        ),
                      ),
                    ),
                  ),
                ),
              ),
            ),
          ),
        ),
      ),
    ),
  ),
)
