-- ===== src/Uvm/Memory.antt =====
-- The linear memory of a run: offsets as `usize`, growth, reading and copying.
pub mod Laws
use slura_chain.Base.{
  ℕ, zero, suc, ◌+◌, ◌-◌, ◌*◌, ◌/◌, ◌%◌, ◌^◌, ◌≤◌, ◌<◌, ◌≡◌, refl, sym, ap, ◌∙◌, ◌≢◌, ◌↔◌, ◌⊎◌, inl,
  inr, Bool, true, false, ◌&&◌, ◌||◌, not, Option, none, some, List, [], ◌∷◌, ◌++◌, map, arith,
  String, ltb, leb, nat_beq, if◌then◌else◌, length, length-append, All, Member, last, first, keep,
  find, any, ◌==◌, nat_eq, string_eq, beq_self, Bool-cases, Option-cases, is_some,
}
use slura_chain.Base.Outcome.{and_then}
use slura_chain.Base.Slices.{get_elem?, take, drop, set_elem, repeat}
use slura_chain.Base.Word.{modulus, wrapping_add, saturating_add}
use slura_chain.Uvm.Word.{low_u64, bits}

-- `as_usize_or_fail`; `as_usize_saturated` has the same body.
unfoldable pub as_usize_or_fail : ℕ → ℕ
as_usize_or_fail v = if ltb 64 (bits v) then modulus - 1 else low_u64 v

unfoldable pub as_usize_saturated : ℕ → ℕ
as_usize_saturated v = if ltb 64 (bits v) then modulus - 1 else low_u64 v

abbrev pub max_mem : ℕ
max_mem = 16 * 1024 * 1024

-- `mem.resize(end, 0)`, called for an `end` beyond the memory.
abbrev pub extend : ℕ → List ℕ → List ℕ
extend end mem = mem ++ repeat (end - length mem) 0

-- `none` is the answer `false`; the memory is unchanged then. Below the two limits the sum of
-- `checked_add` always fits.
unfoldable pub resize_memory_ebpf : List ℕ → ℕ → ℕ → Option (List ℕ)
resize_memory_ebpf mem offset size =
    if ltb max_mem offset || ltb max_mem size
    then none
    else if ltb (offset + size) modulus
    then (if ltb (length mem) (offset + size) && leb (offset + size) max_mem
        then some (extend (offset + size) mem)
        else some mem)
    else none

abbrev pub min_of : ℕ → ℕ → ℕ
min_of a b = if leb a b then a else b

unfoldable pub memory_slice_len : List ℕ → ℕ → ℕ → List ℕ
memory_slice_len mem offset size =
    let end = min_of (saturating_add offset size) (length mem) in
    if ltb offset (length mem) then take (end - offset) (drop offset mem) else []

-- The byte at an index of the source, 0 where there is none. The index `offset + i` of a `usize`
-- wraps.
abbrev pub byte_or_zero : List ℕ → ℕ → ℕ
byte_or_zero source i = elim (get_elem? source i) [ none ↦ 0 | some b ↦ b ]

-- `for i in 0..size` of the copying instructions, from round `i` with `rounds` left.
unfoldable pub copy_loop : ℕ → ℕ → ℕ → ℕ → List ℕ → List ℕ → List ℕ
copy_loop zero i dest offset source mem = mem
copy_loop (suc rounds) i dest offset source mem = copy_loop rounds (i + 1) dest offset source (
    if ltb (dest + i) (length mem)
    then set_elem (dest + i) (byte_or_zero source (wrapping_add offset i)) mem
    else mem)

-- A slice read into 32 zeroed bytes.
abbrev pub padded : List ℕ → List ℕ
padded bytes = bytes ++ repeat (32 - length bytes) 0
