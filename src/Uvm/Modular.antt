-- ===== src/Uvm/Modular.antt =====
-- The modular addition and multiplication of ADDMOD and MULMOD; `none` is a panic.
pub mod Laws
use slura_chain.Base.{
  ℕ, zero, suc, ◌+◌, ◌-◌, ◌*◌, ◌/◌, ◌%◌, ◌^◌, ◌≤◌, ◌<◌, ◌≡◌, refl, sym, ap, ◌∙◌, ◌≢◌, ◌↔◌, ◌⊎◌, inl,
  inr, Bool, true, false, ◌&&◌, ◌||◌, not, Option, none, some, List, [], ◌∷◌, ◌++◌, map, arith,
  String, ltb, leb, nat_beq, if◌then◌else◌, length, length-append, All, Member, last, first, keep,
  find, any, ◌==◌, nat_eq, string_eq, beq_self, Bool-cases, Option-cases, is_some,
}
use slura_chain.Base.Outcome.{and_then}
use slura_chain.Uvm.Word.{word_modulus, word_max, checked_add, checked_sub, overflowing_mul}

-- `a % n`, which panics for `n` zero.
abbrev pub checked_rem : ℕ → ℕ → Option ℕ
checked_rem a n = if ltb 0 n then some (a % n) else none

unfoldable pub addmod_safe : ℕ → ℕ → ℕ → Option ℕ
addmod_safe a b n = and_then (checked_rem a n) λ a_mod. and_then (checked_rem b n) λ b_mod.
    and_then (checked_sub word_max b_mod) λ room.
      if ltb room a_mod
      then (and_then (checked_sub n b_mod)
          λ gap. and_then (checked_sub a_mod gap) λ sum_minus_n. checked_rem sum_minus_n n)
      else (and_then (checked_add a_mod b_mod) λ sum. checked_rem sum n)

-- `while !exp.is_zero()`: the outer `none` is a loop that the fuel does not end.
unfoldable pub mulmod_loop : ℕ → ℕ → ℕ → ℕ → ℕ → Option (Option ℕ)
mulmod_loop zero result base exp n = if nat_beq exp 0 then some (some result) else none
mulmod_loop (suc fuel) result base exp n =
    if nat_beq exp 0
    then some (some result)
    else (elim (if nat_beq (exp % 2) 1 then addmod_safe result base n else some result) [
      | none ↦ some none
      | some result' ↦ elim (addmod_safe base base n) [
        | none ↦ some none
        | some base' ↦ mulmod_loop fuel result' base' (exp / 2) n
      ]
    ])

-- `exp` is halved in each round, so 256 rounds end the loop.
unfoldable pub mulmod_safe : ℕ → ℕ → ℕ → Option (Option ℕ)
mulmod_safe a b n =
    if leb n 1
    then some (some 0)
    else if nat_beq a 0 || nat_beq b 0
    then some (some 0)
    else if nat_beq a 1
    then some (checked_rem b n)
    else if nat_beq b 1
    then some (checked_rem a n)
    else if ltb ((a % n) * (b % n)) word_modulus
    then some (checked_rem (overflowing_mul (a % n) (b % n)) n)
    else mulmod_loop 256 0 (a % n) (b % n) n
