-- ===== src/Uvm/Run/Safe.antt =====
-- What every instruction keeps: memory grows up to its limit, and the gas counter never goes back.
use slura_chain.Base.{
  ℕ, ◌+◌, ◌≤◌, ◌≡◌, refl, ap, ◌⊎◌, inl, inr, Bool, true, false, Option, none, some, List, [], ◌∷◌,
  arith, String, ltb, if◌then◌else◌, length, nat_eq, string_eq, Bool-cases,
}
use slura_chain.Uvm.Word.{word_modulus}
use slura_chain.Uvm.Memory.{max_mem, resize_memory_ebpf}
use slura_chain.Uvm.Memory.Laws.{resize_memory_ebpf-length}
use slura_chain.Uvm.Flow.{grow, grown}
use slura_chain.Uvm.Machine.{
  Machine, Step, advance, skip_advance, continue, return, panic, consume_gas_amount, push_result,
  push_checked, charge, pop_one, pop_two, pop_three, push_value, with_stack, on_one, on_two,
  on_three, halt,
}

-- A machine that a handler leads to from another one.
abbrev pub Follows : Machine → Machine → Type 0
Follows m after =
    (length m.global_mem ≤ length after.global_mem)
    × ((length after.global_mem ≤ length m.global_mem) ⊎ (length after.global_mem ≤ max_mem))
    × (m.gas_used ≤ after.gas_used)

-- Every machine that a handler leads to follows; one that ends by `continue` adds nothing to the
-- stack.
abbrev pub Safe : Machine → Step → Type 0
Safe m (advance n after) = Follows m after
Safe m (skip_advance after) = Follows m after
Safe m (continue after) = Follows m after × (length after.evm_stack ≤ length m.evm_stack)
Safe m (return a) = Unit
Safe m panic = Unit

-- A handler that is safe from every machine.
abbrev pub IsSafe : ℕ → (Machine → Step) → Type 0
IsSafe opcode h = (m : Machine) → Safe m (h m)

-- Instructions that push_value a result on what they leave of the stack.
pub charge-Safe :
    (before m : Machine) (cost n : ℕ) → Follows before m → Safe before (charge cost m (advance n))
unfolding consume_gas_amount
charge-Safe before m cost n h = ground arith

pub push_checked-Safe :
    (before m : Machine) (cost : ℕ) (v : Option ℕ)
    → Follows before m
    → Safe before (push_checked cost v m)
push_checked-Safe before m cost none h = tt
push_checked-Safe before m cost (some v) h = charge-Safe before (push_value v m) cost 1 h

pub either-Safe :
    (before : Machine) (b : Bool) (s t : Step)
    → Safe before s
    → Safe before t
    → Safe before (if b then s else t)
either-Safe before true s t hs ht = hs
either-Safe before false s t hs ht = ht

pub pushed-Safe : (m : Machine) (cost v : ℕ) → Safe m (push_result cost v m)
pushed-Safe m cost v =
    charge-Safe m (push_value v m) cost 1 (omega arith, inl (omega arith), omega arith)

pub charge_skip-Safe :
    (before m : Machine) (cost : ℕ) → Follows before m → Safe before (charge cost m skip_advance)
unfolding consume_gas_amount
charge_skip-Safe before m cost h = ground arith

abbrev pub with_gas : ℕ → Machine → Machine
with_gas gas m = record m { gas_used = gas }

pub charge_then-Safe :
    (before m : Machine) (cost : ℕ) (k : Machine → Step)
    → ((gas : ℕ) → m.gas_used ≤ gas → Safe before (k (with_gas gas m)))
    → Safe before (charge cost m k)
unfolding consume_gas_amount
charge_then-Safe before m cost k h = elim (Bool-cases (ltb (m.gas_used + cost) word_modulus)) [
  | inl fits ↦ rw fits (h (m.gas_used + cost) (omega arith))
  | inr over ↦ rw over tt
]

abbrev pub with_mem : List ℕ → Machine → Machine
with_mem mem m = record m { global_mem = mem }

-- An instruction that asks for memory goes on with memory that follows.
pub grow-Safe :
    (before m : Machine) (offset size : ℕ) (reason : String) (k : Machine → Step)
    → Follows before m
    → ((mem : List ℕ) → Follows before (with_mem mem m) → Safe before (k (with_mem mem m)))
    → Safe before (grow offset size reason m k)
grow-Safe before m offset size reason k h safe =
    by_memory (resize_memory_ebpf m.global_mem offset size) refl
  where
    by_memory :
        (o : Option (List ℕ))
        → resize_memory_ebpf m.global_mem offset size ≡ o
        → Safe before (grown o reason m k)
    by_memory none e = tt
    by_memory (some mem) e =
        safe mem (ground (arith, resize_memory_ebpf-length m.global_mem mem offset size e))

-- Memory of the same length changes nothing.
pub follows_mem :
    (before m : Machine) (mem : List ℕ)
    → length mem ≡ length m.global_mem
    → Follows before m
    → Follows before (with_mem mem m)
follows_mem before m mem e h = ground arith

pub follows_stack : (m : Machine) (rest : List ℕ) → Follows m (with_stack rest m)
follows_stack m rest = (omega arith, inl (omega arith), omega arith)

module _ (reason : String) (m : Machine) where
  pub pop_one-Safe :
      (k : ℕ → Machine → Step)
      → ((a : ℕ) (rest : List ℕ) → Safe m (k a (with_stack rest m)))
      → Safe m (pop_one reason m k)
  pop_one-Safe k h = by_stack m.evm_stack
    where
      by_stack : (s : List ℕ) → Safe m (on_one s (halt reason) λ a rest. k a (with_stack rest m))
      by_stack [] = tt
      by_stack (a ∷ rest) = h a rest

  pub pop_two-Safe :
      (k : ℕ → ℕ → Machine → Step)
      → ((a b : ℕ) (rest : List ℕ) → Safe m (k a b (with_stack rest m)))
      → Safe m (pop_two reason m k)
  pop_two-Safe k h = by_stack m.evm_stack
    where
      by_stack :
          (s : List ℕ) → Safe m (on_two s (halt reason) λ a b rest. k a b (with_stack rest m))
      by_stack [] = tt
      by_stack (a ∷ []) = tt
      by_stack (a ∷ b ∷ rest) = h a b rest

  pub pop_three-Safe :
      (k : ℕ → ℕ → ℕ → Machine → Step)
      → ((a b c : ℕ) (rest : List ℕ)
          → length rest ≤ length m.evm_stack
          → Safe m (k a b c (with_stack rest m)))
      → Safe m (pop_three reason m k)
  pop_three-Safe k h = by_stack m.evm_stack refl
    where
      by_stack :
          (s : List ℕ)
          → m.evm_stack ≡ s
          → Safe m (on_three s (halt reason) λ a b c rest. k a b c (with_stack rest m))
      by_stack [] e = tt
      by_stack (a ∷ []) e = tt
      by_stack (a ∷ b ∷ []) e = tt
      by_stack (a ∷ b ∷ c ∷ rest) e = h a b c rest (ground (arith, ap length e))

  -- The shapes of most instructions: a value of what was taken, which may be missing.
  pub unary-Safe :
      (cost : ℕ) (f : ℕ → ℕ) → Safe m (pop_one reason m λ a m. push_result cost (f a) m)
  unary-Safe cost f =
      pop_one-Safe (λ a m. push_result cost (f a) m)
        λ a rest. charge-Safe m (push_value (f a) (with_stack rest m)) cost 1 (follows_stack m rest)

  pub binary-Safe :
      (cost : ℕ → ℕ → ℕ) (f : ℕ → ℕ → ℕ)
      → Safe m (pop_two reason m λ a b m. push_result (cost a b) (f a b) m)
  binary-Safe cost f =
      pop_two-Safe (λ a b m. push_result (cost a b) (f a b) m)
        λ a b rest.
          charge-Safe m (push_value (f a b) (with_stack rest m)) (cost a b) 1 (follows_stack m rest)

  pub checked_binary-Safe :
      (cost : ℕ) (f : ℕ → ℕ → Option ℕ)
      → Safe m (pop_two reason m λ a b m. push_checked cost (f a b) m)
  checked_binary-Safe cost f =
      pop_two-Safe (λ a b m. push_checked cost (f a b) m)
        λ a b rest. push_checked-Safe m (with_stack rest m) cost (f a b) (follows_stack m rest)

  pub checked_ternary-Safe :
      (cost : ℕ) (f : ℕ → ℕ → ℕ → Option ℕ)
      → Safe m (pop_three reason m λ a b c m. push_checked cost (f a b c) m)
  checked_ternary-Safe cost f =
      pop_three-Safe (λ a b c m. push_checked cost (f a b c) m)
        λ a b c rest fewer.
          push_checked-Safe m (with_stack rest m) cost (f a b c) (follows_stack m rest)

  -- Two values, memory, then the rest.
  pub grow_two-Safe :
      (refused : String) (at len : ℕ → ℕ → ℕ) (k : ℕ → ℕ → Machine → Step)
      → ((a b : ℕ) (after : Machine) → Follows m after → Safe m (k a b after))
      → Safe m (pop_two reason m λ a b m. grow (at a b) (len a b) refused m (k a b))
  grow_two-Safe refused at len k h =
      pop_two-Safe (λ a b m. grow (at a b) (len a b) refused m (k a b))
        λ a b rest.
          grow-Safe m (with_stack rest m) (at a b) (len a b) refused (k a b) (follows_stack m rest)
            λ mem grows. h a b (with_mem mem (with_stack rest m)) grows
