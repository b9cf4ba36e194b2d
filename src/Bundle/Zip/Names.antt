-- ===== src/Bundle/Zip/Names.antt =====
-- Names of entries are compared with `\` and `/` as one separator.
use slura_chain.Base.{
  ℕ, ◌≡◌, refl, ap, ◌≢◌, ◌↔◌, inl, inr, true, false, List, [], ◌∷◌, map, arith, nat_beq, length,
  nat_eq, string_eq, Bool-cases,
}
use slura_chain.Bundle.Zip.{names_match, same_bytes, slash}

same_bytes_iff :
    (xs ys : List ℕ)
    → length xs ≡ length ys
    → (same_bytes xs ys ≡ true) ↔ (map slash xs ≡ map slash ys)
same_bytes_iff [] [] h = (λ t. refl, λ t. refl)
same_bytes_iff [] (y ∷ ys) h = absurd (omega arith)
same_bytes_iff (x ∷ xs) [] h = absurd (omega arith)
same_bytes_iff (x ∷ xs) (y ∷ ys) h = ground (arith, same_bytes_iff xs ys (omega arith))

length-map : (f : ℕ → ℕ) (xs : List ℕ) → length (map f xs) ≡ length xs
length-map f [] = refl
length-map f (x ∷ xs) = omega (arith, length-map f xs)

false-true : false ≢ true
false-true e = cc e

-- Two names match exactly when they are the same once every `\` is written as `/`.
pub names_match_iff : (a b : List ℕ) → (names_match a b ≡ true) ↔ (map slash a ≡ map slash b)
unfolding names_match
names_match_iff a b = elim (Bool-cases (nat_beq (length a) (length b))) [
  | inl same ↦ rw same (same_bytes_iff a b (ground (arith, same)))
  | inr other ↦ rw other (
    λ e. absurd (false-true e),
    λ e. absurd (
        ground
          (arith, other, length-map slash a, length-map slash b, ap (λ (t : List ℕ). length t) e)),
  )
]
