-- ===== src/Uvm/Word.antt =====
-- The `U256` of primitive_types as the interpreter uses it: a number below 2^256. Its `+`, `-` and
-- `+=` panic outside of that range, which is `none` here; its `overflowing_*` wrap.
pub mod Bytes
use slura_chain.Base.{
  ℕ, zero, suc, ◌+◌, ◌-◌, ◌*◌, ◌/◌, ◌%◌, ◌^◌, ◌≤◌, ◌<◌, ◌≡◌, refl, sym, ap, ◌∙◌, ◌≢◌, ◌↔◌, ◌⊎◌, inl,
  inr, Bool, true, false, ◌&&◌, ◌||◌, not, Option, none, some, List, [], ◌∷◌, ◌++◌, map, arith,
  String, ltb, leb, nat_beq, if◌then◌else◌, length, length-append, All, Member, last, first, keep,
  find, any, ◌==◌, nat_eq, string_eq, beq_self, Bool-cases, Option-cases, is_some,
}
use slura_chain.Base.Outcome.{and_then}
use slura_chain.Base.Word.{modulus}

abbrev pub word_modulus : ℕ
word_modulus = 2 ^ 256

-- `U256::MAX`
abbrev pub word_max : ℕ
word_max = word_modulus - 1

-- `a + b`
abbrev pub checked_add : ℕ → ℕ → Option ℕ
checked_add a b = if ltb (a + b) word_modulus then some (a + b) else none

-- `a - b`
abbrev pub checked_sub : ℕ → ℕ → Option ℕ
checked_sub a b = if leb b a then some (a - b) else none

-- `overflowing_add(b).0`, `overflowing_sub(b).0`, `overflowing_mul(b).0`
abbrev pub overflowing_add : ℕ → ℕ → ℕ
overflowing_add a b = (a + b) % word_modulus

abbrev pub overflowing_sub : ℕ → ℕ → ℕ
overflowing_sub a b = (a + word_modulus - b) % word_modulus

abbrev pub overflowing_mul : ℕ → ℕ → ℕ
overflowing_mul a b = (a * b) % word_modulus

-- `low_u64()`
abbrev pub low_u64 : ℕ → ℕ
low_u64 v = v % modulus

-- `!v`
abbrev pub complement : ℕ → ℕ
complement v = word_max - v

-- `bit(i)`
abbrev pub bit : ℕ → ℕ → Bool
bit v i = if ltb 0 (v / 2 ^ i % 2) then true else false

-- `bits()`: how many halvings lead to 0. A word needs 256 at most.
abbrev pub bits_from : ℕ → ℕ → ℕ
bits_from zero v = 0
bits_from (suc f) v = let rest = bits_from f (v / 2) in if ltb 0 v then suc rest else 0

unfoldable pub bits : ℕ → ℕ
bits v = bits_from 256 v

-- `from_big_endian(bytes)`
abbrev pub value_from : ℕ → List ℕ → ℕ
value_from acc [] = acc
value_from acc (b ∷ bs) = value_from (acc * 256 + b) bs

abbrev pub from_big_endian : List ℕ → ℕ
from_big_endian bs = value_from 0 bs

-- The `n` lowest bytes, the highest of them first; `to_big_endian` fills 32 bytes.
abbrev pub big_endian : ℕ → ℕ → List ℕ
big_endian zero v = []
big_endian (suc n) v = big_endian n (v / 256) ++ (v % 256 ∷ [])

unfoldable pub to_big_endian : ℕ → List ℕ
to_big_endian v = big_endian 32 v

bits_test : (bits 0 ≡ 0) × (bits 255 ≡ 8) × (bits (2 ^ 64) ≡ 65) × (bits word_max ≡ 256)
unfolding bits
bits_test = (refl, refl, refl, refl)
