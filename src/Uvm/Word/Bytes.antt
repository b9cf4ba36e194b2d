-- ===== src/Uvm/Word/Bytes.antt =====
-- The 32 bytes of a word and the word of 32 bytes.
use slura_chain.Base.{
  ℕ, zero, suc, ◌+◌, ◌*◌, ◌/◌, ◌%◌, ◌^◌, ◌<◌, ◌≡◌, refl, ap, List, [], ◌∷◌, ◌++◌, arith, length,
  length-append, All, nat_eq, string_eq,
}
use slura_chain.Uvm.Word.{value_from, from_big_endian, big_endian, to_big_endian, word_modulus}

value_from-append :
    (acc : ℕ) (xs ys : List ℕ) → value_from acc (xs ++ ys) ≡ value_from (value_from acc xs) ys
value_from-append acc [] ys = refl
value_from-append acc (x ∷ xs) ys = value_from-append (acc * 256 + x) xs ys

pub length-big_endian : (n v : ℕ) → length (big_endian n v) ≡ n
length-big_endian zero v = refl
length-big_endian (suc n) v =
    omega
      (arith, length-append (big_endian n (v / 256)) (v % 256 ∷ []), length-big_endian n (v / 256))

power_suc : (n : ℕ) → 256 ^ suc n ≡ 256 * 256 ^ n
power_suc n = omega arith

value_from-big_endian : (n v : ℕ) → v < 256 ^ n → value_from 0 (big_endian n v) ≡ v
value_from-big_endian zero v h = omega arith
value_from-big_endian (suc n) v h =
    rw
      (
        value_from-append 0 (big_endian n (v / 256)) (v % 256 ∷ []),
        value_from-big_endian n (v / 256) (omega (arith, power_suc n)),
      )
      (omega arith)

pub from_big_endian-to_big_endian :
    (v : ℕ) → v < word_modulus → from_big_endian (to_big_endian v) ≡ v
unfolding to_big_endian
from_big_endian-to_big_endian v h = value_from-big_endian 32 v h

pub length-to_big_endian : (v : ℕ) → length (to_big_endian v) ≡ 32
unfolding to_big_endian
length-to_big_endian v = length-big_endian 32 v

value_from-lt :
    (acc n : ℕ) (xs : List ℕ)
    → All (λ b. b < 256) xs
    → acc < n
    → value_from acc xs < n * 256 ^ length xs
value_from-lt acc n [] all h = omega arith
value_from-lt acc n (x ∷ xs) all h = omega (
  arith,
  value_from-lt (acc * 256 + x) (n * 256) xs all.1 (omega (arith, all.0)),
  ap (λ (t : ℕ). n * t) (power_suc (length xs)),
)

-- Bytes give a number of their length.
pub from_big_endian-lt :
    (xs : List ℕ) → All (λ b. b < 256) xs → from_big_endian xs < 256 ^ length xs
from_big_endian-lt xs all = omega (arith, value_from-lt 0 1 xs all (omega arith))
