-- ===== src/Base/Word.antt =====
-- `u64` arithmetic. No profile of the workspace turns overflow checks on in a release build, so
-- `+`, `*` and `sum` wrap; `saturating_add` and `saturating_sub` are written out.
use Prim.Native.Nat.{ℕ, ◌+◌, ◌-◌, ◌*◌, ◌%◌, ◌^◌, ◌<◌}
use mathlib.Core.Path.{◌≡◌}
use mathlib.Core.List.{List, [], ◌∷◌}
use native.Mathlib.Omega.{arith}
use slura_chain.Base.Tests.{ltb, if◌then◌else◌}
use slura_chain.Base.Lists.{sum_by}

abbrev pub modulus : ℕ
modulus = 2 ^ 64

abbrev pub wrapping_add : ℕ → ℕ → ℕ
wrapping_add a b = (a + b) % modulus

abbrev pub wrapping_mul : ℕ → ℕ → ℕ
wrapping_mul a b = (a * b) % modulus

abbrev pub saturating_add : ℕ → ℕ → ℕ
saturating_add a b = if ltb (a + b) modulus then a + b else modulus - 1

-- `a.saturating_sub(b)`: subtraction on ℕ stops at 0 as well.
abbrev pub saturating_sub : ℕ → ℕ → ℕ
saturating_sub a b = a - b

module _ {ℓ} {A : Type ℓ} where
  -- `iter().map(f).sum::<u64>()`: the fold starts at 0 and wraps at each addition.
  abbrev pub wrapping_sum_from : (A → ℕ) → ℕ → List A → ℕ
  wrapping_sum_from f acc [] = acc
  wrapping_sum_from f acc (x ∷ xs) = wrapping_sum_from f (wrapping_add acc (f x)) xs

  abbrev pub wrapping_sum : (A → ℕ) → List A → ℕ
  wrapping_sum f xs = wrapping_sum_from f 0 xs

  wrapping_sum_from-eq :
      (f : A → ℕ) (acc : ℕ) (xs : List A)
      → acc < modulus
      → wrapping_sum_from f acc xs ≡ (acc + sum_by f xs) % modulus
  wrapping_sum_from-eq f acc [] h = omega arith
  wrapping_sum_from-eq f acc (x ∷ xs) h =
      omega (arith, wrapping_sum_from-eq f (wrapping_add acc (f x)) xs (omega arith))

  -- The wrapping sum is the exact sum modulo 2^64.
  pub wrapping_sum-eq : (f : A → ℕ) (xs : List A) → wrapping_sum f xs ≡ sum_by f xs % modulus
  wrapping_sum-eq f xs = omega (arith, wrapping_sum_from-eq f 0 xs (omega arith))

  -- While the exact sum fits, nothing wraps.
  pub wrapping_sum-fits :
      (f : A → ℕ) (xs : List A) → sum_by f xs < modulus → wrapping_sum f xs ≡ sum_by f xs
  wrapping_sum-fits f xs h = omega (arith, wrapping_sum-eq f xs)

pub saturating_add-lt : (a b : ℕ) → saturating_add a b < modulus
saturating_add-lt a b = ground arith

pub saturating_add-fits : (a b : ℕ) → a + b < modulus → saturating_add a b ≡ a + b
saturating_add-fits a b h = ground arith
