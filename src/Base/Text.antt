-- ===== src/Base/Text.antt =====
-- `format!` and `parse` of a `u64`, and the joining of texts.
use Prim.Native.Nat.{ℕ, zero, suc, ◌+◌, ◌*◌, ◌-◌, ◌/◌, ◌%◌}
use Prim.Native.String.{String, ◌++◌}
use mathlib.Core.Path.{◌≡◌, refl}
use slura_chain.Base.Word.{modulus}
use Prim.Native.Char.{code}
use mathlib.Core.Option.{Option, none, some}
use mathlib.Core.Bool.{◌&&◌}
use slura_chain.Base.Tests.{ltb, leb, if◌then◌else◌}

abbrev digit : ℕ → String
digit zero = "0"
digit (suc zero) = "1"
digit (suc (suc zero)) = "2"
digit (suc (suc (suc zero))) = "3"
digit (suc (suc (suc (suc zero)))) = "4"
digit (suc (suc (suc (suc (suc zero))))) = "5"
digit (suc (suc (suc (suc (suc (suc zero)))))) = "6"
digit (suc (suc (suc (suc (suc (suc (suc zero))))))) = "7"
digit (suc (suc (suc (suc (suc (suc (suc (suc zero)))))))) = "8"
digit _ = "9"

decimal_from : ℕ → ℕ → String
decimal_from zero n = digit n
decimal_from (suc f) n =
    let rest = decimal_from f (n / 10) in if ltb n 10 then digit n else rest ++ digit (n % 10)

-- A `u64` has at most twenty digits, so nineteen divisions are enough.
unfoldable pub decimal : ℕ → String
unfolding decimal_from
decimal n = decimal_from 19 n

-- `format!("{}{}", a, b)`
abbrev pub join : String → String → String
join a b = a ++ b

decimal_test : decimal 18446744073709551615 ≡ "18446744073709551615"
unfolding decimal
decimal_test = refl

parse_digits : ℕ → String → Option ℕ
parse_digits acc String.[] = some acc
parse_digits acc (String.◌∷◌ c s) =
    let n = acc * 10 + (code c - b'0') in
    let rest = parse_digits n s in
    if (leb b'0' (code c) && leb (code c) b'9') && ltb n modulus then rest else none

abbrev parse_unsigned : String → Option ℕ
unfolding parse_digits
parse_unsigned String.[] = none
parse_unsigned (String.◌∷◌ c s) = parse_digits 0 (String.◌∷◌ c s)

-- `str::parse::<u64>().ok()`: an optional `+`, then one digit or more, without overflow.
unfoldable pub parse_u64 : String → Option ℕ
unfolding parse_digits
parse_u64 String.[] = none
parse_u64 (String.◌∷◌ c s) =
    if leb b'+' (code c) && leb (code c) b'+'
    then parse_unsigned s
    else parse_digits 0 (String.◌∷◌ c s)

parse_u64_test :
    (parse_u64 "+0042" ≡ some 42)
    × (parse_u64 "" ≡ none)
    × (parse_u64 "+" ≡ none)
    × (parse_u64 "-1" ≡ none)
    × (parse_u64 "18446744073709551615" ≡ some 18446744073709551615)
    × (parse_u64 "18446744073709551616" ≡ none)
unfolding parse_u64
parse_u64_test = (refl, refl, refl, refl, refl, refl)
