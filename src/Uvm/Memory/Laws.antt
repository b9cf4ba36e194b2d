-- ===== src/Uvm/Memory/Laws.antt =====
-- Growth keeps the contents, memory stays within its limit, and what is written is read back.
use slura_chain.Base.{
  ℕ, zero, suc, ◌+◌, ◌-◌, ◌/◌, ◌^◌, ◌≤◌, ◌<◌, ◌≡◌, refl, ◌⊎◌, inl, inr, true, some, List, arith,
  ltb, if◌then◌else◌, length, length-append, nat_eq, string_eq, Bool-cases,
}
use native.Mathlib.Nat.{pow-succ'}
use slura_chain.Base.Slices.{take, drop, set_elem, repeat, length-repeat, length-set_elem}
use slura_chain.Base.Word.{modulus, saturating_add, wrapping_add}
use slura_chain.Uvm.Word.{word_modulus, bits, bits_from}
use slura_chain.Uvm.Memory.{
  as_usize_or_fail, as_usize_saturated, max_mem, extend, resize_memory_ebpf, memory_slice_len,
  copy_loop, min_of, byte_or_zero,
}

bits_from-le : (f k v : ℕ) → v < 2 ^ k → bits_from f v ≤ k
bits_from-le zero k v h = omega arith
bits_from-le (suc f) zero v h = ground (arith)
bits_from-le (suc f) (suc k) v h =
    ground (arith, bits_from-le f k (v / 2) (omega (arith, pow-succ' 2 k)))

power_pos : (k : ℕ) → 0 < 2 ^ k
power_pos zero = omega arith
power_pos (suc k) = omega (arith, power_pos k, pow-succ' 2 k, power_pos k)

bits_from-lt : (f k v : ℕ) → v < 2 ^ f → bits_from f v ≤ k → v < 2 ^ k
bits_from-lt zero k v h le = omega (arith, power_pos k)
bits_from-lt (suc f) zero v h le = ground (arith)
bits_from-lt (suc f) (suc k) v h le =
    ground
      (arith, bits_from-lt f k (v / 2) (omega (arith, pow-succ' 2 f)), pow-succ' 2 k, power_pos k)

bits-le : (v : ℕ) → v < modulus → bits v ≤ 64
unfolding bits
bits-le v h = bits_from-le 256 64 v h

bits-lt : (v : ℕ) → v < word_modulus → bits v ≤ 64 → v < modulus
unfolding bits
bits-lt v h le = bits_from-lt 256 64 v h le

-- An offset that a `usize` holds is itself; any other is `usize::MAX`.
pub as_usize_or_fail-eq :
    (v : ℕ) → v < word_modulus → as_usize_or_fail v ≡ (if ltb v modulus then v else modulus - 1)
unfolding as_usize_or_fail
as_usize_or_fail-eq v h = ground (arith, bits-le v, bits-lt v h)

pub length-extend : (end : ℕ) (mem : List ℕ) → length mem ≤ end → length (extend end mem) ≡ end
length-extend end mem h = omega (
  arith,
  length-append mem (repeat (end - length mem) 0),
  length-repeat {A = ℕ} (end - length mem) 0,
)

-- Memory only grows, keeps what it held, and never grows beyond 16 MiB.
pub resize_memory_ebpf-length :
    (mem after : List ℕ) (offset size : ℕ)
    → resize_memory_ebpf mem offset size ≡ some after
    → (length mem ≤ length after) × ((after ≡ mem) ⊎ (length after ≤ max_mem))
unfolding resize_memory_ebpf
resize_memory_ebpf-length mem after offset size done =
    ground (arith, length-extend (offset + size) mem)

pub resize_memory_ebpf-fits :
    (mem : List ℕ) (offset size : ℕ)
    → offset + size ≤ max_mem
    → (after : List ℕ) × (resize_memory_ebpf mem offset size ≡ some after)
      × (offset + size ≤ length after)
unfolding resize_memory_ebpf
resize_memory_ebpf-fits mem offset size fits =
    elim (Bool-cases (ltb (length mem) (offset + size))) [
      | inl beyond ↦ (
        extend (offset + size) mem,
        ground arith,
        ground (arith, length-extend (offset + size) mem),
      )
      | inr inside ↦ (mem, ground arith, ground arith)
    ]

pub length-copy_loop :
    (rounds i dest offset : ℕ) (source mem : List ℕ)
    → length (copy_loop rounds i dest offset source mem) ≡ length mem
unfolding copy_loop
length-copy_loop zero i dest offset source mem = refl
length-copy_loop (suc rounds) i dest offset source mem = ground (
  arith,
  length-copy_loop rounds (i + 1) dest offset source mem,
  length-copy_loop rounds (i + 1) dest offset source
      (set_elem (dest + i) (byte_or_zero source (wrapping_add offset i)) mem),
  length-set_elem (dest + i) (byte_or_zero source (wrapping_add offset i)) mem,
)

-- A range within the memory is read as it stands.
pub memory_slice_len-within :
    (mem : List ℕ) (offset size : ℕ)
    → 0 < size
    → offset + size ≤ length mem
    → length mem < modulus
    → memory_slice_len mem offset size ≡ take size (drop offset mem)
unfolding memory_slice_len
memory_slice_len-within mem offset size pos within fits =
    let exact : saturating_add offset size ≡ offset + size = ground arith in
    let end : min_of (offset + size) (length mem) ≡ offset + size = ground arith in
    let inside : ltb offset (length mem) ≡ true = ground arith in
    let count : offset + size - offset ≡ size = omega arith in rw (exact, end, inside, count) refl

-- Memory that reaches far enough stays as it is.
pub resize_memory_ebpf-within :
    (mem : List ℕ) (offset size : ℕ)
    → offset + size ≤ max_mem
    → offset + size ≤ length mem
    → resize_memory_ebpf mem offset size ≡ some mem
unfolding resize_memory_ebpf
resize_memory_ebpf-within mem offset size fits within = ground arith

pub as_usize_saturated-zero : as_usize_saturated 0 ≡ 0
unfolding as_usize_saturated
as_usize_saturated-zero = ground (arith, bits-le 0 (omega arith))
