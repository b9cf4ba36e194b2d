-- ===== src/Uvm/Arithmetic.antt =====
-- The instructions 0x01 to 0x1d: arithmetic, comparison and bits of words.
use Prim.Native.Nat.{bit_and, bit_or, bit_xor}
use slura_chain.Base.{
  ℕ, ◌+◌, ◌-◌, ◌*◌, ◌/◌, ◌%◌, ◌^◌, Bool, ◌&&◌, not, Option, none, some, ltb, leb, nat_beq,
  if◌then◌else◌, nat_eq, string_eq,
}
use slura_chain.Base.Outcome.{and_then}
use slura_chain.Base.Word.{modulus}
use slura_chain.Uvm.Word.{
  word_modulus, word_max, checked_sub, overflowing_add, overflowing_sub, overflowing_mul, low_u64,
  complement, bit, bits,
}
use slura_chain.Uvm.Modular.{addmod_safe, mulmod_safe}
use slura_chain.Uvm.Machine.{Machine, Step, pop_one, pop_two, pop_three, push_result, push_checked}

-- `i64` as its bit pattern, a number below 2^64.
abbrev i64_is_negative : ℕ → Bool
i64_is_negative p = leb (2 ^ 63) p

abbrev i64_neg : ℕ → ℕ
i64_neg p = (modulus - p) % modulus

abbrev i64_magnitude : ℕ → ℕ
i64_magnitude p = if i64_is_negative p then modulus - p else p

-- `/` and `%` of `i64` panic for a zero divisor and for the least number by -1.
abbrev i64_divides : ℕ → ℕ → Bool
i64_divides p q = ltb 0 q && not (nat_beq p (2 ^ 63) && nat_beq q (modulus - 1))

abbrev pub i64_div : ℕ → ℕ → Option ℕ
i64_div p q =
    let quotient = i64_magnitude p / i64_magnitude q in
    if i64_divides p q
    then some (
        if i64_is_negative p
        then (if i64_is_negative q then quotient else i64_neg quotient)
        else (if i64_is_negative q then i64_neg quotient else quotient))
    else none

abbrev pub i64_rem : ℕ → ℕ → Option ℕ
i64_rem p q =
    let rest = i64_magnitude p % i64_magnitude q in
    if i64_divides p q then some (if i64_is_negative p then i64_neg rest else rest) else none

abbrev i64_lt : ℕ → ℕ → Bool
i64_lt p q = ltb ((p + 2 ^ 63) % modulus) ((q + 2 ^ 63) % modulus)

-- `!val + 1` cannot leave the range: `val` has its top bit set.
unfoldable pub i256_from_u256 : ℕ → ℕ
i256_from_u256 val = if bit val 255 then i64_neg (low_u64 (complement val + 1)) else low_u64 val

unfoldable pub u256_from_i256 : ℕ → ℕ
u256_from_i256 val = if i64_is_negative val then complement (i64_magnitude val) + 1 else val

-- `<<` drops what leaves the word.
abbrev shift_left : ℕ → ℕ → ℕ
shift_left v s = v * 2 ^ s % word_modulus

abbrev of_bool : Bool → ℕ
of_bool b = if b then 1 else 0

-- `low_u32()`
abbrev low_u32 : ℕ → ℕ
low_u32 v = v % 2 ^ 32

unfoldable pub op_add : Machine → Step
op_add m = pop_two "Stack underflow on ADD" m λ a b m. push_result 3 (overflowing_add a b) m

unfoldable pub op_mul : Machine → Step
op_mul m = pop_two "Stack underflow on MUL" m λ a b m. push_result 5 (overflowing_mul a b) m

unfoldable pub op_sub : Machine → Step
op_sub m = pop_two "Stack underflow on SUB" m λ a b m. push_result 3 (overflowing_sub a b) m

unfoldable pub op_div : Machine → Step
op_div m =
    pop_two "Stack underflow on DIV" m λ a b m. push_result 5 (if nat_beq b 0 then 0 else a / b) m

unfoldable pub op_sdiv : Machine → Step
op_sdiv m = pop_two "Stack underflow on SDIV" m λ a b m.
    push_checked 5
      (if nat_beq b 0
        then some 0
        else (and_then (i64_div (i256_from_u256 a) (i256_from_u256 b))
            λ q. some (u256_from_i256 q)))
      m

unfoldable pub op_mod : Machine → Step
op_mod m =
    pop_two "Stack underflow on MOD" m λ a b m. push_result 5 (if nat_beq b 0 then 0 else a % b) m

unfoldable pub op_smod : Machine → Step
op_smod m = pop_two "Stack underflow on SMOD" m λ a b m.
    push_checked 5
      (if nat_beq b 0
        then some 0
        else (and_then (i64_rem (i256_from_u256 a) (i256_from_u256 b))
            λ r. some (u256_from_i256 r)))
      m

unfoldable pub op_addmod : Machine → Step
op_addmod m =
    pop_three "Stack underflow on ADDMOD" m
      λ a b n m. push_checked 8 (if nat_beq n 0 then some 0 else addmod_safe a b n) m

-- A loop that the fuel of `mulmod_safe` does not end counts as a panic.
unfoldable pub op_mulmod : Machine → Step
op_mulmod m = pop_three "Stack underflow on MULMOD" m λ a b n m.
    push_checked 8 (if nat_beq n 0 then some 0 else and_then (mulmod_safe a b n) λ result. result) m

-- `overflowing_pow(exponent).0`; the gas is counted by the bytes of the exponent.
unfoldable pub op_exp : Machine → Step
op_exp m = pop_two "Stack underflow on EXP" m λ a exponent m.
    push_result (10 + 50 * ((bits exponent + 7) / 8)) (a ^ exponent % word_modulus) m

-- `(1 << (sign_bit + 1)) - 1`
abbrev sign_mask : ℕ → Option ℕ
sign_mask sign_bit = checked_sub (shift_left 1 (sign_bit + 1)) 1

abbrev sign_extended : ℕ → ℕ → Option ℕ
sign_extended b x =
    if leb 32 b
    then some x
    else (let sign_bit = low_u32 b * 8 + 7 in
        and_then (sign_mask sign_bit)
          λ mask. some (if bit x sign_bit then bit_or x (complement mask) else bit_and x mask))

unfoldable pub op_signextend : Machine → Step
op_signextend m =
    pop_two "Stack underflow on SIGNEXTEND" m λ b x m. push_checked 5 (sign_extended b x) m

unfoldable pub op_lt : Machine → Step
op_lt m = pop_two "Stack underflow on LT" m λ a b m. push_result 3 (of_bool (ltb a b)) m

unfoldable pub op_gt : Machine → Step
op_gt m = pop_two "Stack underflow on GT" m λ a b m. push_result 3 (of_bool (ltb b a)) m

unfoldable pub op_slt : Machine → Step
op_slt m =
    pop_two "Stack underflow on SLT" m
      λ a b m. push_result 3 (of_bool (i64_lt (i256_from_u256 a) (i256_from_u256 b))) m

unfoldable pub op_sgt : Machine → Step
op_sgt m =
    pop_two "Stack underflow on SGT" m
      λ a b m. push_result 3 (of_bool (i64_lt (i256_from_u256 b) (i256_from_u256 a))) m

unfoldable pub op_eq : Machine → Step
op_eq m = pop_two "Stack underflow on EQ" m λ a b m. push_result 3 (of_bool (nat_beq a b)) m

unfoldable pub op_iszero : Machine → Step
op_iszero m = pop_one "Stack underflow on ISZERO" m λ a m. push_result 3 (of_bool (nat_beq a 0)) m

unfoldable pub op_and : Machine → Step
op_and m = pop_two "Stack underflow on AND" m λ a b m. push_result 3 (bit_and a b) m

unfoldable pub op_or : Machine → Step
op_or m = pop_two "Stack underflow on OR" m λ a b m. push_result 3 (bit_or a b) m

unfoldable pub op_xor : Machine → Step
op_xor m = pop_two "Stack underflow on XOR" m λ a b m. push_result 3 (bit_xor a b) m

unfoldable pub op_not : Machine → Step
op_not m = pop_one "Stack underflow on NOT" m λ a m. push_result 3 (complement a) m

unfoldable pub op_byte : Machine → Step
op_byte m =
    pop_two "Stack underflow on BYTE" m
      λ i x m. push_result 3 (if leb 32 i then 0 else x / 256 ^ (31 - low_u32 i) % 256) m

unfoldable pub op_shl : Machine → Step
op_shl m =
    pop_two "Stack underflow on SHL" m λ shift value m.
      push_result 3 (if leb 256 shift then 0 else shift_left value (low_u32 shift)) m

unfoldable pub op_shr : Machine → Step
op_shr m =
    pop_two "Stack underflow on SHR" m
      λ shift value m. push_result 3 (if leb 256 shift then 0 else value / 2 ^ low_u32 shift) m

abbrev shifted_sign : ℕ → ℕ → ℕ
shifted_sign shift value =
    if leb 256 shift
    then (if bit value 255 then word_max else 0)
    else (let shifted = value / 2 ^ low_u32 shift in
        if bit value 255
        then bit_or shifted (shift_left word_max (256 - low_u32 shift))
        else shifted)

unfoldable pub op_sar : Machine → Step
op_sar m =
    pop_two "Stack underflow on SAR" m λ shift value m. push_result 3 (shifted_sign shift value) m
