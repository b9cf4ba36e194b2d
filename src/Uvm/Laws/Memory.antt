-- ===== src/Uvm/Laws/Memory.antt =====
-- MSTORE and MLOAD.
use slura_chain.Base.{
  ℕ, ◌+◌, ◌≤◌, ◌<◌, ◌≡◌, refl, true, List, ◌∷◌, arith, ltb, leb, length, nat_eq, string_eq,
}
use mathlib.Core.List.{append-nil}
use mathlib.Core.Path.{subst}
use slura_chain.Base.Slices.{take, drop, overwrite, take-overwrite, length-overwrite}
use slura_chain.Base.Word.{modulus}
use slura_chain.Uvm.Word.{word_modulus, to_big_endian, from_big_endian}
use slura_chain.Uvm.Word.Bytes.{from_big_endian-to_big_endian, length-to_big_endian}
use slura_chain.Uvm.Memory.{as_usize_or_fail, max_mem, memory_slice_len, padded}
use slura_chain.Uvm.Memory.Laws.{
  as_usize_or_fail-eq, resize_memory_ebpf-fits, resize_memory_ebpf-length,
  resize_memory_ebpf-within, memory_slice_len-within,
}
use slura_chain.Uvm.Machine.{Machine, advance, push_result, push_value, consume_gas_amount}
use slura_chain.Uvm.Flow.{op_mstore, op_mload}

within_max : (offset : ℕ) → offset + 32 ≤ max_mem → as_usize_or_fail offset ≡ offset
within_max offset h = ground (arith, as_usize_or_fail-eq offset (omega arith))

-- A word that is read where it was written.
read_back :
    (offset v : ℕ) (mem : List ℕ)
    → v < word_modulus
    → offset + 32 ≤ length mem
    → length mem < modulus
    → from_big_endian (padded (memory_slice_len (overwrite offset (to_big_endian v) mem) offset 32))
      ≡ v
read_back offset v mem hv within fits =
    let bytes = length-to_big_endian v in
    let kept = length-overwrite offset (to_big_endian v) mem (omega (arith, bytes)) in
    let slice =
      memory_slice_len-within (overwrite offset (to_big_endian v) mem) offset 32 (omega arith)
        (omega (arith, kept)) (omega (arith, kept)) in
    let part : take 32 (drop offset (overwrite offset (to_big_endian v) mem)) ≡ to_big_endian v =
      subst (λ k. take k (drop offset (overwrite offset (to_big_endian v) mem)) ≡ to_big_endian v)
        bytes (take-overwrite offset (to_big_endian v) mem (omega (arith, bytes))) in
    rw (slice, part, bytes, append-nil) (from_big_endian-to_big_endian v hv)

-- On a stack with an offset and a word on top, with the 32 bytes within 16 MiB, memory of at most 16 MiB and a gas counter that does not overflow, MSTORE takes both values and goes on, and MLOAD at the same offset then pushes that word and changes nothing else but the gas counter.
pub op_mload-op_mstore :
    (m : Machine) (offset v : ℕ) (rest : List ℕ)
    → m.evm_stack ≡ offset ∷ v ∷ rest
    → v < word_modulus
    → offset + 32 ≤ max_mem
    → length m.global_mem ≤ max_mem
    → m.gas_used + 3 < word_modulus
    → (after : Machine) × (op_mstore m ≡ advance 1 after)
      × (after.evm_stack ≡ rest)
      × (op_mload (push_value offset after) ≡ push_result 3 v after)
unfolding op_mstore op_mload consume_gas_amount
op_mload-op_mstore m offset v rest e hv within fits gas =
    let (mem, grows, reaches) = resize_memory_ebpf-fits m.global_mem offset 32 within in
    let bounded = resize_memory_ebpf-length m.global_mem mem offset 32 grows in
    let bytes = length-to_big_endian v in
    let kept = length-overwrite offset (to_big_endian v) mem (omega (arith, bytes)) in
    let inside : leb (offset + length (to_big_endian v)) (length mem) ≡ true =
      ground (arith, bytes) in
    let counted : ltb (m.gas_used + 3) word_modulus ≡ true = ground arith in
    let again =
      resize_memory_ebpf-within (overwrite offset (to_big_endian v) mem) offset 32 within
        (omega (arith, kept)) in
    let value = read_back offset v mem hv reaches (ground (arith, bounded)) in
    (
      record m {
        evm_stack = rest;
        global_mem = overwrite offset (to_big_endian v) mem;
        gas_used = m.gas_used + 3;
      },
      rw (e, within_max offset within, grows, inside, counted) refl,
      refl,
      rw (within_max offset within, again, value) refl,
    )
