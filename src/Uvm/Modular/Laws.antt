-- ===== src/Uvm/Modular/Laws.antt =====
-- The modular operations compute the sum and the product of the exact numbers.
use slura_chain.Base.{
  ℕ, zero, suc, ◌+◌, ◌-◌, ◌*◌, ◌/◌, ◌%◌, ◌^◌, ◌≤◌, ◌<◌, ◌≡◌, sym, ap, ◌∙◌, some, arith, nat_eq,
  string_eq,
}
use native.Mathlib.Nat.{
  mod-lt, mod-add-mod, add-mod-mod, add-mod, mod-eq_of_lt, add-mul-mod_self_left, div-add-mod,
  mul_comm,
}
use slura_chain.Uvm.Word.{word_modulus}
use slura_chain.Uvm.Modular.{addmod_safe, mulmod_safe, mulmod_loop}

-- Two reduced numbers whose sum reaches `n` lose `n` once.
wrapped_sum : (a b n : ℕ) → a < n → b < n → n ≤ a + b → (a - (n - b)) % n ≡ (a + b) % n
wrapped_sum a b n ha hb h = grind arith

-- The sum as ADDMOD wants it: for a modulus above zero `addmod_safe` does not panic, and gives the remainder of the exact sum, although the sum may exceed a word.
pub addmod_safe-eq : (a b n : ℕ) → 0 < n → n < word_modulus → addmod_safe a b n ≡ some ((a + b) % n)
unfolding addmod_safe
addmod_safe-eq a b n pos fits =
    ground (arith, wrapped_sum (a % n) (b % n) n, mod-lt a pos, mod-lt b pos, add-mod a b n)

mod-mul : (a k n : ℕ) → (a % n * k) % n ≡ (a * k) % n
mod-mul a k n = sym (ap (λ (t : ℕ). t % n) split ∙ add-mul-mod_self_left (a % n * k) n (a / n * k))
  where
    split : a * k ≡ a % n * k + n * (a / n * k)
    split = omega (arith, ap (λ (t : ℕ). t * k) (div-add-mod a n))

double_round : (r b e n : ℕ) → ((r + b * (e % 2)) % n + (b + b) % n * (e / 2)) % n ≡ (r + b * e) % n
double_round r b e n =
    mod-add-mod (r + b * (e % 2)) n ((b + b) % n * (e / 2))
    ∙ sym (add-mod-mod (r + b * (e % 2)) ((b + b) % n * (e / 2)) n)
    ∙ ap (λ (t : ℕ). (r + b * (e % 2) + t) % n) (mod-mul (b + b) (e / 2) n)
    ∙ add-mod-mod (r + b * (e % 2)) ((b + b) * (e / 2)) n
    ∙ ap (λ (t : ℕ). t % n) exact
  where
    exact : r + b * (e % 2) + (b + b) * (e / 2) ≡ r + b * e
    exact = omega (arith, ap (λ (t : ℕ). b * t) (div-add-mod e 2))

mulmod_loop-eq :
    (fuel r b e n : ℕ)
    → 0 < n
    → n < word_modulus
    → r < n
    → e < 2 ^ fuel
    → mulmod_loop fuel r b e n ≡ some (some ((r + b * e) % n))
unfolding mulmod_loop
mulmod_loop-eq zero r b e n pos fits hr he = ground (arith, mod-eq_of_lt hr)
mulmod_loop-eq (suc fuel) r b e n pos fits hr he = ground (
  arith,
  mod-eq_of_lt hr,
  addmod_safe-eq r b n pos fits,
  addmod_safe-eq b b n pos fits,
  mod-lt (r + b) pos,
  double_round r b e n,
  mulmod_loop-eq fuel r ((b + b) % n) (e / 2) n pos fits,
  mulmod_loop-eq fuel ((r + b) % n) ((b + b) % n) (e / 2) n pos fits,
)

zero_product : (a b : ℕ) → a ≡ 0 → a * b ≡ 0
zero_product a b z = omega (arith, ap (λ (t : ℕ). t * b) z)

one_product : (a b : ℕ) → a ≡ 1 → a * b ≡ b
one_product a b z = omega (arith, ap (λ (t : ℕ). t * b) z)

-- The product as MULMOD wants it: on words, for a modulus above zero, the loop of `mulmod_safe` ends within its 256 rounds, nothing panics, and the result is the remainder of the exact product, although the product may exceed a word.
pub mulmod_safe-eq :
    (a b n : ℕ)
    → 0 < n
    → a < word_modulus
    → b < word_modulus
    → n < word_modulus
    → mulmod_safe a b n ≡ some (some ((a * b) % n))
unfolding mulmod_safe
mulmod_safe-eq a b n pos ha hb hn = ground (
  arith,
  mod-lt (a * b) pos,
  mod-eq_of_lt pos,
  λ (z : a ≡ 0). zero_product a b z,
  λ (z : b ≡ 0). zero_product b a z,
  λ (z : a ≡ 1). one_product a b z,
  λ (z : b ≡ 1). one_product b a z,
  mul_comm a b,
  mulmod_loop-eq 256 0 (a % n) (b % n) n pos hn pos,
  reduced_product,
  mod-lt b pos,
)
  where
    reduced_product : (a % n * (b % n)) % n ≡ (a * b) % n
    reduced_product =
        mod-mul a (b % n) n
        ∙ ap (λ (t : ℕ). t % n) (mul_comm a (b % n))
        ∙ mod-mul b a n
        ∙ ap (λ (t : ℕ). t % n) (mul_comm b a)
