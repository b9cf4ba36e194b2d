-- ===== src/Base/Slices.antt =====
-- `Vec<u8>` by index and by range: reading a part, writing over a part, extending.
use Prim.Native.Nat.{ℕ, zero, suc, ◌+◌, ◌-◌, ◌≤◌, ◌<◌}
use mathlib.Core.Path.{◌≡◌, refl}
use mathlib.Core.List.{List, [], ◌∷◌, ◌++◌}
use mathlib.Core.Option.{Option, none, some}
use native.Mathlib.Omega.{arith}
use slura_chain.Base.Lists.{length, length-append}

module _ {ℓ} {A : Type ℓ} where
  -- `get(i)`
  abbrev pub get_elem? : List A → ℕ → Option A
  get_elem? [] i = none
  get_elem? (x ∷ xs) zero = some x
  get_elem? (x ∷ xs) (suc i) = get_elem? xs i

  -- `xs[..n]` and `xs[n..]`, all of the list where it is shorter.
  abbrev pub take : ℕ → List A → List A
  take zero xs = []
  take (suc n) [] = []
  take (suc n) (x ∷ xs) = x ∷ take n xs

  abbrev pub drop : ℕ → List A → List A
  drop zero xs = xs
  drop (suc n) [] = []
  drop (suc n) (x ∷ xs) = drop n xs

  -- `xs[i] = a`, for `i` in range.
  abbrev pub set_elem : ℕ → A → List A → List A
  set_elem i a [] = []
  set_elem zero a (x ∷ xs) = a ∷ xs
  set_elem (suc i) a (x ∷ xs) = x ∷ set_elem i a xs

  -- `xs[i..i + part.len()].copy_from_slice(part)`, for a range within the list.
  abbrev pub overwrite : ℕ → List A → List A → List A
  overwrite i part xs = take i xs ++ (part ++ drop (i + length part) xs)

  -- `vec![a; n]`
  abbrev pub repeat : ℕ → A → List A
  repeat zero a = []
  repeat (suc n) a = a ∷ repeat n a

  pub length-repeat : (n : ℕ) (a : A) → length (repeat n a) ≡ n
  length-repeat zero a = refl
  length-repeat (suc n) a = omega (arith, length-repeat n a)

  pub length-take : (n : ℕ) (xs : List A) → n ≤ length xs → length (take n xs) ≡ n
  length-take zero xs h = refl
  length-take (suc n) [] h = absurd (omega arith)
  length-take (suc n) (x ∷ xs) h = omega (arith, length-take n xs (omega arith))

  pub length-drop : (n : ℕ) (xs : List A) → length (drop n xs) ≡ length xs - n
  length-drop zero xs = omega arith
  length-drop (suc n) [] = omega arith
  length-drop (suc n) (x ∷ xs) = omega (arith, length-drop n xs)

  pub length-set_elem : (i : ℕ) (a : A) (xs : List A) → length (set_elem i a xs) ≡ length xs
  length-set_elem i a [] = refl
  length-set_elem zero a (x ∷ xs) = refl
  length-set_elem (suc i) a (x ∷ xs) = omega (arith, length-set_elem i a xs)

  pub take-append : (xs ys : List A) → take (length xs) (xs ++ ys) ≡ xs
  take-append [] ys = refl
  take-append (x ∷ xs) ys = rw (take-append xs ys) refl

  pub drop-append : (n : ℕ) (xs ys : List A) → n ≡ length xs → drop n (xs ++ ys) ≡ ys
  drop-append zero [] ys h = refl
  drop-append zero (x ∷ xs) ys h = absurd (omega arith)
  drop-append (suc n) [] ys h = absurd (omega arith)
  drop-append (suc n) (x ∷ xs) ys h = drop-append n xs ys (omega arith)

  pub length-overwrite :
      (i : ℕ) (part xs : List A)
      → i + length part ≤ length xs
      → length (overwrite i part xs) ≡ length xs
  length-overwrite i part xs h = omega (
    arith,
    length-append (take i xs) (part ++ drop (i + length part) xs),
    length-append part (drop (i + length part) xs),
    length-take i xs (omega arith),
    length-drop (i + length part) xs,
  )

  -- What was written over a range is read back from it.
  pub take-overwrite :
      (i : ℕ) (part xs : List A)
      → i + length part ≤ length xs
      → take (length part) (drop i (overwrite i part xs)) ≡ part
  take-overwrite i part xs h =
      rw
        (drop-append i (take i xs) (part ++ drop (i + length part) xs)
          (omega (arith, length-take i xs (omega arith))))
        (take-append part (drop (i + length part) xs))

  -- An index of the list has an element.
  pub get_elem?-lt : (xs : List A) (i : ℕ) → i < length xs → (a : A) × (get_elem? xs i ≡ some a)
  get_elem?-lt [] i h = absurd (omega arith)
  get_elem?-lt (x ∷ xs) zero h = (x, refl)
  get_elem?-lt (x ∷ xs) (suc i) h = get_elem?-lt xs i (omega arith)

  -- The element at an index begins what is left from there on.
  pub drop-get_elem? :
      (i : ℕ) (xs : List A)
      → i < length xs
      → (x : A) × (get_elem? xs i ≡ some x) × (drop i xs ≡ x ∷ drop (suc i) xs)
  drop-get_elem? i [] h = absurd (omega arith)
  drop-get_elem? zero (x ∷ xs) h = (x, refl, refl)
  drop-get_elem? (suc i) (x ∷ xs) h = drop-get_elem? i xs (omega arith)

  pub get_elem?-ge : (xs : List A) (i : ℕ) → length xs ≤ i → get_elem? xs i ≡ none
  get_elem?-ge [] i h = refl
  get_elem?-ge (x ∷ xs) zero h = absurd (omega arith)
  get_elem?-ge (x ∷ xs) (suc i) h = get_elem?-ge xs i (omega arith)
