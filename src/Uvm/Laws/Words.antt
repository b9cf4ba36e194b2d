-- ===== src/Uvm/Laws/Words.antt =====
-- Instructions on words: modular arithmetic is exact, signed instructions see 64 bits.
use slura_chain.Base.{
  ℕ, ◌+◌, ◌*◌, ◌%◌, ◌<◌, ◌≡◌, refl, ◌∙◌, inl, inr, false, List, ◌∷◌, arith, nat_beq, if◌then◌else◌,
  nat_eq, string_eq, Bool-cases,
}
use slura_chain.Uvm.Word.{word_modulus, low_u64}
use slura_chain.Uvm.Modular.Laws.{addmod_safe-eq, mulmod_safe-eq}
use slura_chain.Uvm.Machine.{Machine, panic, push_result, with_stack}
use slura_chain.Uvm.Arithmetic.{op_addmod, op_mulmod, op_sdiv, op_signextend, i256_from_u256}

-- On a stack with words `a`, `b` and `n` on top, where `n` is not 0, ADDMOD pushes the remainder of the exact sum and MULMOD the remainder of the exact product, each for 8 of gas; for `n` zero both push 0.
pub modular-exact :
    (m : Machine) (a b n : ℕ) (rest : List ℕ)
    → m.evm_stack ≡ a ∷ b ∷ n ∷ rest
    → a < word_modulus
    → b < word_modulus
    → n < word_modulus
    → (op_addmod m ≡ push_result 8 (if nat_beq n 0 then 0 else (a + b) % n) (with_stack rest m))
      × (op_mulmod m ≡ push_result 8 (if nat_beq n 0 then 0 else (a * b) % n) (with_stack rest m))
unfolding op_addmod op_mulmod
modular-exact m a b n rest e ha hb hn = elim (Bool-cases (nat_beq n 0)) [
  | inl zero_modulus ↦ rw (e, zero_modulus) (refl, refl)
  | inr above ↦
      let pos : 0 < n = ground (arith, above) in
      rw (e, above, addmod_safe-eq a b n pos hn, mulmod_safe-eq a b n pos ha hb hn) (refl, refl)
]

-- The signed view of a word is its lowest 64 bits, whatever the sign bit of the word is.
pub i256_from_u256-low_u64 : (v : ℕ) → v < word_modulus → i256_from_u256 v ≡ low_u64 v
unfolding i256_from_u256
i256_from_u256-low_u64 v h = ground arith

-- SDIV panics for every divisor other than 0 whose lowest 64 bits are 0.
pub op_sdiv-panic :
    (m : Machine) (a b : ℕ) (rest : List ℕ)
    → m.evm_stack ≡ a ∷ b ∷ rest
    → b < word_modulus
    → 0 < b
    → low_u64 b ≡ 0
    → op_sdiv m ≡ panic
unfolding op_sdiv
op_sdiv-panic m a b rest e hb pos low =
    let divisor : i256_from_u256 b ≡ 0 = i256_from_u256-low_u64 b hb ∙ low in
    let nonzero : nat_beq b 0 ≡ false = ground arith in rw (e, nonzero, divisor) refl

-- SIGNEXTEND panics for the byte index 31, the one of a whole word.
pub op_signextend-panic :
    (m : Machine) (x : ℕ) (rest : List ℕ) → m.evm_stack ≡ 31 ∷ x ∷ rest → op_signextend m ≡ panic
unfolding op_signextend
op_signextend-panic m x rest e = rw e refl
