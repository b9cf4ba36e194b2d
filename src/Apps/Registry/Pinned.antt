-- ===== src/Apps/Registry/Pinned.antt =====
-- The numbering of the pinned applications, and what a change of the pin of one of them does to it.
use slura_chain.Base.{
  ℕ, zero, suc, ◌+◌, ◌≤◌, ◌<◌, ◌≡◌, refl, sym, ◌≢◌, inl, inr, Bool, true, false, ◌&&◌, ltb, Option,
  none, some, List, [], ◌∷◌, arith, nat_beq, if◌then◌else◌, length, nat_eq, Bool-cases,
}
use slura_chain.Base.Slices.{get_elem?, get_elem?-lt, get_elem?-ge, take, set_elem}
use slura_chain.Apps.Registry.{
  RegEntry, pinned_of, registry_get_pinned, registry_set_pinned, registry_pinned_count, pinned_from,
  registry_pinned_index,
}

-- What the loop over `registry` may answer at the index `idx`, after `count` pinned entries.
abbrev Found : ℕ → ℕ → ℕ → List RegEntry → Option ℕ → Type 0
Found idx count i registry none = count + registry_pinned_count registry ≤ i
Found idx count i registry (some at) =
    (d : ℕ) × (at ≡ idx + d)
    × (registry_get_pinned registry d ≡ true)
    × (count + registry_pinned_count (take d registry) ≡ i)

pinned-Found :
    (idx count i : ℕ) (e : RegEntry) (rest : List RegEntry) (o : Option ℕ)
    → e.pinned ≡ true
    → Found (idx + 1) (count + 1) i rest o
    → Found idx count i (e ∷ rest) o
unfolding registry_pinned_count registry_get_pinned
pinned-Found idx count i e rest none p h = rw p (omega arith)
pinned-Found idx count i e rest (some at) p (d, at_d, pinned, counted) =
    (suc d, omega arith, pinned, rw p (omega arith))

unpinned-Found :
    (idx count i : ℕ) (e : RegEntry) (rest : List RegEntry) (o : Option ℕ)
    → e.pinned ≡ false
    → Found (idx + 1) count i rest o
    → Found idx count i (e ∷ rest) o
unfolding registry_pinned_count registry_get_pinned
unpinned-Found idx count i e rest none p h = rw p h
unpinned-Found idx count i e rest (some at) p (d, at_d, pinned, counted) =
    (suc d, omega arith, pinned, rw p counted)

turn-Found :
    (idx count i : ℕ) (e : RegEntry) (rest : List RegEntry) (pinned reached : Bool)
    → (counted skipped : Option ℕ) → e.pinned ≡ pinned
    → nat_beq count i ≡ reached
    → (count ≢ i → Found (idx + 1) (count + 1) i rest counted)
    → Found (idx + 1) count i rest skipped
    → Found idx count i
        (e ∷ rest)
        (if pinned then (if reached then some idx else counted) else skipped)
unfolding registry_pinned_count registry_get_pinned
turn-Found idx count i e rest false reached counted skipped p r next h =
    unpinned-Found idx count i e rest skipped p h
turn-Found idx count i e rest true true counted skipped p r next h =
    (0, omega arith, p, omega (arith, (nat_eq.beq_iff count i).0 r))
turn-Found idx count i e rest true false counted skipped p r next h =
    pinned-Found idx count i e rest counted p
      (next λ same. ground (arith, (nat_eq.beq_iff count i).1 same))

pinned_from-Found :
    (idx count i : ℕ) (registry : List RegEntry)
    → count ≤ i
    → Found idx count i registry (pinned_from idx count i registry)
unfolding registry_pinned_count
pinned_from-Found idx count i [] h = omega arith
pinned_from-Found idx count i (e ∷ rest) h =
    turn-Found idx count i e rest e.pinned (nat_beq count i)
      (pinned_from (idx + 1) (count + 1) i rest) (pinned_from (idx + 1) count i rest) refl refl
      (λ other. pinned_from-Found (idx + 1) (count + 1) i rest (omega arith))
      (pinned_from-Found (idx + 1) count i rest h)

-- What `registry_pinned_index` may answer for `i`: an entry of the registry that is pinned and has
-- exactly `i` pinned ones before it, or nothing, where the registry has no more than `i`.
abbrev pub IsNumbered : List RegEntry → ℕ → Option ℕ → Type 0
IsNumbered registry i none = registry_pinned_count registry ≤ i
IsNumbered registry i (some at) =
    (registry_get_pinned registry at ≡ true) × (registry_pinned_count (take at registry) ≡ i)

Found-IsNumbered :
    (registry : List RegEntry) (i : ℕ) (o : Option ℕ)
    → Found 0 0 i registry o
    → IsNumbered registry i o
Found-IsNumbered registry i none h = omega arith
Found-IsNumbered registry i (some at) (d, e, pinned, counted) = rw (at_d) (pinned, omega arith)
  where
    at_d : at ≡ d
    at_d = omega arith

-- `registry_pinned_index(i)` is the index of a pinned entry with exactly `i` pinned entries before
-- it; it is -1 only when no more than `i` entries are pinned.
pub registry_pinned_index-IsNumbered :
    (registry : List RegEntry) (i : ℕ) → IsNumbered registry i (registry_pinned_index registry i)
unfolding registry_pinned_index
registry_pinned_index-IsNumbered registry i =
    Found-IsNumbered registry i _ (pinned_from-Found 0 0 i registry (omega arith))

get_elem?-set_elem :
    (registry : List RegEntry) (i j : ℕ) (e : RegEntry)
    → i < length registry
    → get_elem? (set_elem i e registry) j ≡ (if nat_beq j i then some e else get_elem? registry j)
get_elem?-set_elem [] i j e h = absurd (omega arith)
get_elem?-set_elem (x ∷ xs) zero zero e h = refl
get_elem?-set_elem (x ∷ xs) zero (suc j) e h = ground arith
get_elem?-set_elem (x ∷ xs) (suc i) zero e h = ground arith
get_elem?-set_elem (x ∷ xs) (suc i) (suc j) e h =
    ground (arith, get_elem?-set_elem xs i j e (omega arith))

abbrev pub as_bit : Bool → ℕ
as_bit true = 1
as_bit false = 0

count-cons :
    (e : RegEntry) (registry : List RegEntry)
    → registry_pinned_count (e ∷ registry) ≡ as_bit e.pinned + registry_pinned_count registry
unfolding registry_pinned_count
count-cons e registry = elim (Bool-cases e.pinned) [
  | inl p ↦ ground (arith, p)
  | inr p ↦ ground (arith, p)
]

-- The pinned entries, when one entry is exchanged.
count-set_elem :
    (registry : List RegEntry) (i : ℕ) (old e : RegEntry)
    → get_elem? registry i ≡ some old
    → registry_pinned_count (set_elem i e registry) + as_bit old.pinned
      ≡ registry_pinned_count registry + as_bit e.pinned
unfolding registry_pinned_count
count-set_elem [] i old e h = ground arith
count-set_elem (x ∷ xs) zero old e h = ground (arith, count-cons e xs, count-cons x xs)
count-set_elem (x ∷ xs) (suc i) old e h = ground (arith, count-set_elem xs i old e h)

set_in_range :
    (registry : List RegEntry) (i : ℕ) (pinned : Bool) (e : RegEntry)
    → get_elem? registry i ≡ some e
    → registry_set_pinned registry i pinned
      ≡ (true, set_elem i (record e { pinned = pinned }) registry)
unfolding registry_set_pinned
set_in_range registry i pinned e h = ground (arith, h)

set_out_of_range :
    (registry : List RegEntry) (i : ℕ) (pinned : Bool)
    → get_elem? registry i ≡ none
    → registry_set_pinned registry i pinned ≡ (false, registry)
unfolding registry_set_pinned
set_out_of_range registry i pinned h = ground (arith, h)

get_pinned_at :
    (registry : List RegEntry) (i : ℕ) (o : Option RegEntry)
    → get_elem? registry i ≡ o
    → registry_get_pinned registry i ≡ pinned_of o
unfolding registry_get_pinned
get_pinned_at registry i o h = rw h refl

get_pinned-set_elem :
    (registry : List RegEntry) (i j : ℕ) (e : RegEntry)
    → i < length registry
    → registry_get_pinned (set_elem i e registry) j
      ≡ (if nat_beq j i then e.pinned else registry_get_pinned registry j)
unfolding registry_get_pinned
get_pinned-set_elem registry i j e h = rw (get_elem?-set_elem registry i j e h) (ground arith)

-- What `registry_set_pinned(i, pinned)` leaves, with its answer: it answers whether `i` is in range;
-- in range the pin of entry `i` is the new one, every other pin is kept, and the number of pinned
-- entries follows; out of range nothing changes.
abbrev pub IsRepinned : List RegEntry → ℕ → Bool → Bool × List RegEntry → Type 0
IsRepinned registry i pinned (in_range, after) =
    (in_range ≡ ltb i (length registry))
    × ((j : ℕ)
        → registry_get_pinned after j
          ≡ (if nat_beq j i && in_range then pinned else registry_get_pinned registry j))
    × (registry_pinned_count after + as_bit (registry_get_pinned registry i)
        ≡ registry_pinned_count registry + as_bit (pinned && in_range))

-- `registry_set_pinned` answers whether the index is in range; in range the pin of that entry
-- becomes the new one, out of range no pin changes; every other pin is kept, and the number of
-- pinned entries changes by just that pin.
pub registry_set_pinned-IsRepinned :
    (registry : List RegEntry) (i : ℕ) (pinned : Bool)
    → IsRepinned registry i pinned (registry_set_pinned registry i pinned)
registry_set_pinned-IsRepinned registry i pinned = elim (Bool-cases (ltb i (length registry))) [
  | inr out ↦
      rw (set_out_of_range registry i pinned (get_elem?-ge registry i (ground (arith, out)))) (
        sym out,
        λ j. ground arith,
        ground
            (arith, get_pinned_at registry i none (get_elem?-ge registry i (ground (arith, out)))),
      )
  | inl within ↦
      let (e, found) = get_elem?-lt registry i (ground (arith, within)) in
      rw (set_in_range registry i pinned e found) (
        sym within,
        λ j.
            rw
              (get_pinned-set_elem registry i j (record e { pinned = pinned })
                (ground (arith, within)))
              (ground arith),
        ground (
          arith,
          get_pinned_at registry i (some e) found,
          count-set_elem registry i e (record e { pinned = pinned }) found,
        ),
      )
]
