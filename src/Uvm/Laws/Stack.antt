-- ===== src/Uvm/Laws/Stack.antt =====
-- Jumps, pushes, exchanges, MCOPY, reading call data, and gas.
use mathlib.Core.Path.{subst}
use slura_chain.Base.{
  ℕ, zero, suc, ◌+◌, ◌-◌, ◌≤◌, ◌<◌, ◌≡◌, refl, sym, ap, ◌∙◌, inl, inr, true, Option, some, List, [],
  ◌∷◌, arith, ltb, length, nat_eq, string_eq, Option-cases,
}
use slura_chain.Base.Slices.{get_elem?, set_elem, repeat, take, drop, drop-get_elem?, get_elem?-ge}
use slura_chain.Base.Word.{modulus, wrapping_add}
use slura_chain.Uvm.Word.{word_modulus, from_big_endian}
use slura_chain.Uvm.Memory.{byte_or_zero}
use slura_chain.Uvm.Memory.Laws.{as_usize_or_fail-eq}
use slura_chain.Uvm.Machine.{Machine, Context, Step, consume_gas_amount}
use slura_chain.Uvm.Flow.{swapped, op_mcopy}
use slura_chain.Uvm.Environment.{read_loop}
use slura_chain.Uvm.Run.{again, round, bottom, dispatch}

set_elem_self :
    (i a b : ℕ) (xs : List ℕ) → get_elem? xs i ≡ some b → set_elem i b (set_elem i a xs) ≡ xs
set_elem_self i a b [] h = refl
set_elem_self zero a b (x ∷ xs) h = let same : x ≡ b = cc h in ap (λ (t : ℕ). t ∷ xs) (sym same)
set_elem_self (suc i) a b (x ∷ xs) h = ap (λ (t : List ℕ). x ∷ t) (set_elem_self i a b xs h)

get_elem?-set_elem :
    (i a b : ℕ) (xs : List ℕ) → get_elem? xs i ≡ some b → get_elem? (set_elem i a xs) i ≡ some a
get_elem?-set_elem i a b [] h = cc h
get_elem?-set_elem zero a b (x ∷ xs) h = refl
get_elem?-set_elem (suc i) a b (x ∷ xs) h = get_elem?-set_elem i a b xs h

-- SWAP exchanges: where it does not halt, doing it again gives the stack back.
pub swapped-swapped :
    (n : ℕ) (stack after : List ℕ) → swapped n stack ≡ some after → swapped n after ≡ some stack
swapped-swapped n [] after h = cc h
swapped-swapped n (a ∷ rest) after h = elim (Option-cases (get_elem? rest (n - 1))) [
  | inl missing ↦ absurd (ground (arith, missing, h))
  | inr (b, found) ↦
      let result : ◌≡◌ {A = Option (List ℕ)} (some (b ∷ set_elem (n - 1) a rest)) (some after) =
        rw found at h in
      let stack : b ∷ set_elem (n - 1) a rest ≡ after = cc result in
      subst (λ s. swapped n s ≡ some (a ∷ rest)) stack
        (rw (get_elem?-set_elem (n - 1) a b rest found, set_elem_self (n - 1) a b rest found) refl)
]

-- The word of call data that lies whole within it.
read_loop-within :
    (n i offset : ℕ) (source : List ℕ)
    → offset + i + n ≤ length source
    → length source < modulus
    → read_loop n i offset source ≡ take n (drop (offset + i) source)
unfolding read_loop
read_loop-within zero i offset source h fits = refl
read_loop-within (suc n) i offset source h fits =
    let (x, found, split) = drop-get_elem? (offset + i) source (omega arith) in
    let exact : wrapping_add offset i ≡ offset + i = omega arith in
    let onwards : offset + (i + 1) ≡ suc (offset + i) = omega arith in
    let head : byte_or_zero source (wrapping_add offset i) ≡ x =
      rw (exact, found, byte_or_zero) refl in
    let tail =
      subst (λ k. read_loop n (i + 1) offset source ≡ take n (drop k source)) onwards
        (read_loop-within n (i + 1) offset source (omega arith) fits) in
    ap (λ (t : ℕ). t ∷ read_loop n (i + 1) offset source) head
    ∙ ap (λ (t : List ℕ). x ∷ t) tail
    ∙ sym (ap (λ (t : List ℕ). take (suc n) t) split)

read_loop-beyond :
    (n i offset : ℕ) (source : List ℕ)
    → length source ≤ offset + i
    → offset + i + n ≤ modulus
    → read_loop n i offset source ≡ repeat n 0
unfolding read_loop
read_loop-beyond zero i offset source h fits = refl
read_loop-beyond (suc n) i offset source h fits =
    let exact : wrapping_add offset i ≡ offset + i = omega arith in
    let head : byte_or_zero source (wrapping_add offset i) ≡ 0 =
      rw (exact, get_elem?-ge source (offset + i) h, byte_or_zero) refl in
    ap (λ (t : ℕ). t ∷ read_loop n (i + 1) offset source) head
    ∙ ap (λ (t : List ℕ). 0 ∷ t)
        (read_loop-beyond n (i + 1) offset source (omega arith) (omega arith))

-- A word of call data that lies whole within the data is read as it stands, and one that lies whole beyond it is 0, for offsets whose 32 bytes do not pass the end of a `usize`.
pub read_loop-word :
    (offset : ℕ) (source : List ℕ)
    → length source < modulus
    → offset + 32 ≤ modulus
    → (offset + 32 ≤ length source → read_loop 32 0 offset source ≡ take 32 (drop offset source))
      × (length source ≤ offset → from_big_endian (read_loop 32 0 offset source) ≡ 0)
read_loop-word offset source fits within = (
  λ inside.
      subst (λ k. read_loop 32 0 offset source ≡ take 32 (drop k source)) start
        (read_loop-within 32 0 offset source (omega arith) fits),
  λ beyond. rw (read_loop-beyond 32 0 offset source (omega arith) (omega arith)) refl,
)
  where
    start : offset + 0 ≡ offset
    start = omega arith

-- MCOPY of no bytes takes its three values and leaves the counter where it is, so that the loop meets the same instruction again: for code that has it at the counter, while the gas counter does not overflow.
pub round-op_mcopy :
    (system : ℕ → Machine → Step) (c : Context) (m : Machine) (src dst : ℕ) (rest : List ℕ)
    → get_elem? c.prog m.bytecode_pc ≡ some 0x5e
    → m.evm_stack ≡ 0 ∷ src ∷ dst ∷ rest
    → m.gas_used + 3 < word_modulus
    → (after : Machine) × (round system c m ≡ again after)
      × (after.bytecode_pc ≡ m.bytecode_pc)
      × (after.evm_stack ≡ rest)
unfolding round dispatch op_mcopy bottom consume_gas_amount
round-op_mcopy system c m src dst rest code stack gas =
    let counted : ltb (m.gas_used + 3) word_modulus ≡ true = ground arith in
    (
      record m { evm_stack = rest; gas_used = m.gas_used + 3 },
      rw (code, stack, as_usize_or_fail-eq 0 (omega arith), counted) refl,
      refl,
      refl,
    )
