-- ===== src/Uvm/Run/Reachable.antt =====
-- The machines that a run passes through, and the bounds that hold in all of them.
use mathlib.Core.Path.{subst}
use slura_chain.Base.{
  ℕ, ◌+◌, ◌%◌, ◌≤◌, ◌≡◌, ◌⊎◌, inl, inr, Option, none, some, arith, ltb, length, nat_eq, string_eq,
  Bool-cases,
}
use slura_chain.Base.Word.{modulus}
use slura_chain.Uvm.Memory.{max_mem}
use slura_chain.Uvm.Machine.{Machine, Context, Step, advance, skip_advance, continue, return, panic}
use slura_chain.Uvm.Run.{again, dispatch, bottom, round, round_on, checked_stack}
use slura_chain.Uvm.Run.Safe.{Safe, Follows}
use slura_chain.Uvm.Run.Dispatch.{dispatch-Safe}
use slura_chain.Base.Slices.{get_elem?}

-- Machines at the test of the loop, from a first one.
pub data Reachable (system : ℕ → Machine → Step) (c : Context) (origin : Machine)
    : Machine → Type 0 where
  start : Reachable system c origin origin
  next :
      {m after : Machine}
      → Reachable system c origin m
      → round system c m ≡ again after
      → Reachable system c origin after

-- The stack fits, memory stays between its origin size and 16 MiB, and gas is counted upwards.
abbrev pub Bounded : Machine → Machine → Type 0
Bounded origin m =
    (length m.evm_stack ≤ 1024)
    × (length origin.global_mem ≤ length m.global_mem)
    × ((length m.global_mem ≤ length origin.global_mem) ⊎ (length m.global_mem ≤ max_mem))
    × (origin.gas_used ≤ m.gas_used)

again_machine : (m after : Machine) → again m ≡ again after → m ≡ after
again_machine m after e = cc e

checked_stack-again :
    (m after : Machine) → checked_stack m ≡ again after → (m ≡ after) × (length m.evm_stack ≤ 1024)
checked_stack-again m after e = elim (Bool-cases (ltb 1024 (length m.evm_stack))) [
  | inl over ↦ absurd (ground (arith, over, e))
  | inr fits ↦ (again_machine m after (rw fits at e), ground (arith, fits))
]

-- A machine that follows a bounded one is bounded where its stack fits.
follows-Bounded :
    (origin m after : Machine)
    → Bounded origin m
    → Follows m after
    → length after.evm_stack ≤ 1024
    → Bounded origin after
follows-Bounded origin m after h safe fits = ground arith

bottom-Bounded :
    (origin m after : Machine) (s : Step)
    → Bounded origin m
    → Safe m s
    → bottom s ≡ again after
    → Bounded origin after
unfolding bottom
bottom-Bounded origin m after (advance n m') h safe e =
    let moved = record m' { bytecode_pc = (m'.bytecode_pc + n) % modulus } in
    let settled = checked_stack-again moved after e in
    subst (λ x. Bounded origin x) settled.0 (follows-Bounded origin m moved h safe settled.1)
bottom-Bounded origin m after (skip_advance m') h safe e =
    let settled = checked_stack-again m' after e in
    subst (λ x. Bounded origin x) settled.0 (follows-Bounded origin m m' h safe settled.1)
bottom-Bounded origin m after (continue m') h safe e =
    subst (λ x. Bounded origin x) (again_machine m' after e)
      (follows-Bounded origin m m' h safe.0 (omega (arith, safe.1, h.0)))
bottom-Bounded origin m after (return a) h safe e = cc e
bottom-Bounded origin m after panic h safe e = cc e

module _ (system : ℕ → Machine → Step)
    (system_safe : (opcode : ℕ) (m : Machine) → Safe m (system opcode m)) where
  round-Bounded :
      (c : Context) (origin m after : Machine)
      → Bounded origin m
      → round system c m ≡ again after
      → Bounded origin after
  unfolding round
  round-Bounded c origin m after h e = on_opcode (get_elem? c.prog m.bytecode_pc) e
    where
      on_opcode : (o : Option ℕ) → round_on system o c m ≡ again after → Bounded origin after
      on_opcode none e = cc e
      on_opcode (some opcode) e =
          bottom-Bounded origin m after (dispatch system c opcode m) h
            (dispatch-Safe system system_safe c opcode m) e

-- At every test of the loop the stack has at most 1024 entries, memory is at least as long as at the first test and no longer than that or 16 MiB, and the gas counter is at least what it was: for a first machine whose stack fits, and where the instructions that run other code follow the same rules.
pub Reachable-Bounded :
    (system : ℕ → Machine → Step) (c : Context) (origin m : Machine)
    → ((opcode : ℕ) (m : Machine) → Safe m (system opcode m))
    → length origin.evm_stack ≤ 1024
    → Reachable system c origin m
    → Bounded origin m
Reachable-Bounded system c origin _ safe fits start =
    (fits, omega arith, inl (omega arith), omega arith)
Reachable-Bounded system c origin m safe fits (next {m = b} r e) =
    round-Bounded system safe c origin b m (Reachable-Bounded system c origin b safe fits r) e
