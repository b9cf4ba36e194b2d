-- ===== src/Base/Map.antt =====
-- `HashMap<K, V>` and `DashMap<K, V>` as a list of entries in iteration order; a new key goes to
-- the end. The order is observed only where the code iterates.
use slura_chain.Base.Tests.{Eq, ◌==◌, if◌then◌else◌, is_some, beq_self, Bool-cases}
use slura_chain.Base.Lists.{any, sum_by}
use Prim.Native.Nat.{ℕ, ◌+◌}
use mathlib.Core.Path.{◌≡◌, refl, sym, subst}
use mathlib.Core.Logic.{inl, inr}
use mathlib.Core.Bool.{Bool, true}
use mathlib.Core.List.{List, [], ◌∷◌}
use mathlib.Core.Option.{Option, none, some}
use native.Mathlib.Omega.{arith}

abbrev pub Map {ℓ κ} : Type ℓ → Type κ → Type (ℓ ⊔ κ)
Map K V = List (K × V)

module _ {ℓ κ} {K : Type ℓ} {V : Type κ} where
  -- `values()`
  abbrev pub values : Map K V → List V
  values [] = []
  values ((_, v) ∷ m) = v ∷ values m

  -- `keys()`
  abbrev pub keys : Map K V → List K
  keys [] = []
  keys ((k, _) ∷ m) = k ∷ keys m

  -- The sum of a number over the values.
  abbrev pub total : (V → ℕ) → Map K V → ℕ
  total f [] = 0
  total f ((_, v) ∷ m) = f v + total f m

module _ {ℓ κ} {K : Type ℓ} {V : Type κ} ⦃e : Eq K⦄ where
  -- `get(k)`
  abbrev pub lookup : K → Map K V → Option V
  lookup k [] = none
  lookup k ((j, v) ∷ m) = if j == k then some v else lookup k m

  -- `contains_key(k)`
  abbrev pub contains : K → Map K V → Bool
  contains k m = is_some (lookup k m)

  -- `insert(k, v)`
  abbrev pub insert : K → V → Map K V → Map K V
  insert k v [] = (k, v) ∷ []
  insert k v ((j, w) ∷ m) = if j == k then (j, v) ∷ m else (j, w) ∷ insert k v m

  -- `remove(k)`
  abbrev pub erase : K → Map K V → Map K V
  erase k [] = []
  erase k ((j, w) ∷ m) = let rest = erase k m in if j == k then rest else (j, w) ∷ rest

  -- `remove` of each key of a list.
  abbrev pub erase_all : List K → Map K V → Map K V
  erase_all [] m = m
  erase_all (k ∷ ks) m = erase_all ks (erase k m)

  -- `get(k).copied().unwrap_or(d)`
  abbrev pub lookup_or : K → V → Map K V → V
  lookup_or k d m = elim (lookup k m) [ none ↦ d | some v ↦ v ]

  -- No key is listed twice.
  abbrev pub IsUnique : Map K V → Type κ
  IsUnique [] = Unit
  IsUnique ((k, _) ∷ m) = (lookup k m ≡ none) × IsUnique m

  pub lookup-insert :
      (k j : K) (v : V) (m : Map K V)
      → lookup j (insert k v m) ≡ (if k == j then some v else lookup j m)
  lookup-insert k j v [] = refl
  lookup-insert k j v ((i, w) ∷ m) =
      ground (arith, e.beq_iff k j, e.beq_iff i k, e.beq_iff i j, lookup-insert k j v m)

  pub lookup-erase :
      (k j : K) (m : Map K V) → lookup j (erase k m) ≡ (if k == j then none else lookup j m)
  lookup-erase k j [] = ground arith
  lookup-erase k j ((i, w) ∷ m) =
      ground (arith, e.beq_iff k j, e.beq_iff i k, e.beq_iff i j, lookup-erase k j m)

  pub lookup-insert_self : (k : K) (v : V) (m : Map K V) → lookup k (insert k v m) ≡ some v
  lookup-insert_self k v m = ground (arith, lookup-insert k k v m, beq_self k)

  pub insert-IsUnique : (k : K) (v : V) (m : Map K V) → IsUnique m → IsUnique (insert k v m)
  insert-IsUnique k v [] h = (refl, tt)
  insert-IsUnique k v ((i, w) ∷ m) h =
      ground (arith, e.beq_iff i k, e.beq_iff k i, lookup-insert k i v m, insert-IsUnique k v m h.1)

  pub erase-IsUnique : (k : K) (m : Map K V) → IsUnique m → IsUnique (erase k m)
  erase-IsUnique k [] h = tt
  erase-IsUnique k ((i, w) ∷ m) h = ground (arith, lookup-erase k i m, erase-IsUnique k m h.1)

  -- `insert` replaces the number of its key in the total.
  pub total-insert :
      (f : V → ℕ) (k : K) (v : V) (m : Map K V)
      → total f (insert k v m) + elim (lookup k m) [ none ↦ 0 | some w ↦ f w ] ≡ total f m + f v
  total-insert f k v [] = omega arith
  total-insert f k v ((j, w) ∷ m) = ground (arith, total-insert f k v m)

  pub lookup-erase_all :
      (ks : List K) (j : K) (m : Map K V)
      → lookup j (erase_all ks m) ≡ (if any (λ k. k == j) ks then none else lookup j m)
  lookup-erase_all [] j m = refl
  lookup-erase_all (k ∷ ks) j m =
      ground (arith, lookup-erase_all ks j (erase k m), lookup-erase k j m)

  -- A map in which nothing is found is empty.
  pub empty_of_lookup : (m : Map K V) → ((k : K) → lookup k m ≡ none) → m ≡ []
  empty_of_lookup [] h = refl
  empty_of_lookup ((k, v) ∷ m) h = absurd (ground (arith, h k, beq_self k))

  -- What is found is an entry, under the key that is asked for.
  pub any_value_of_lookup :
      (p : V → Bool) (k : K) (v : V) (m : Map K V)
      → lookup k m ≡ some v
      → p v ≡ true
      → any p (values m) ≡ true
  any_value_of_lookup p k v [] h q = cc
  any_value_of_lookup p k v ((j, w) ∷ m) h q = ground (arith, any_value_of_lookup p k v m)

-- The total is the sum over the values.
pub sum_by-values {ℓ κ} :
    {K : Type ℓ} {V : Type κ} (f : V → ℕ) (m : Map K V) → sum_by f (values m) ≡ total f m
sum_by-values f [] = refl
sum_by-values f ((k, v) ∷ m) = omega (arith, sum_by-values f m)

-- A predicate of every key and its value.
abbrev pub Entries {ℓ κ μ} : {K : Type ℓ} {V : Type κ} → (K → V → Type μ) → Map K V → Type μ
Entries P [] = Unit
Entries P ((k, v) ∷ m) = P k v × Entries P m

module _ {ℓ κ μ} {K : Type ℓ} {V : Type κ} ⦃e : Eq K⦄ (P : K → V → Type μ) where
  pub lookup-Entries : (k : K) (v : V) (m : Map K V) → Entries P m → lookup k m ≡ some v → P k v
  lookup-Entries k v [] all found = absurd (ground (arith, found))
  lookup-Entries k v ((j, w) ∷ m) all found = elim (Bool-cases (j == k)) [
    | inr other ↦ lookup-Entries k v m all.1 (rw other at found)
    | inl same ↦
        let here : ◌≡◌ {A = Option V} (some w) (some v) = rw same at found in
        let value : w ≡ v = cc here in
        subst (λ x. P k x) value (subst (λ i. P i w) ((e.beq_iff j k).0 same) all.0)
  ]

  pub insert-Entries :
      (k : K) (v : V) (m : Map K V) → P k v → Entries P m → Entries P (insert k v m)
  insert-Entries k v [] p all = (p, tt)
  insert-Entries k v ((j, w) ∷ m) p all = elim (Bool-cases (j == k)) [
    | inl same ↦ rw same (subst (λ i. P i v) (sym ((e.beq_iff j k).0 same)) p, all.1)
    | inr other ↦ rw other (all.0, insert-Entries k v m p all.1)
  ]
