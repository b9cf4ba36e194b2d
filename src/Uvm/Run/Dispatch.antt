-- ===== src/Uvm/Run/Dispatch.antt =====
-- The instructions of a range of bytes are safe, and so is the choice among all.
use slura_chain.Base.{
  ℕ, ◌+◌, ◌-◌, inl, inr, Option, none, some, List, [], ◌∷◌, arith, String, ltb, length, nat_eq,
  string_eq, Bool-cases, Option-cases,
}
use slura_chain.Base.Map.{Map, lookup, Entries, lookup-Entries}
use slura_chain.Base.Slices.{get_elem?, take, drop}
use slura_chain.Base.Text.{join, decimal}
use slura_chain.Uvm.Memory.{as_usize_or_fail}
use slura_chain.Uvm.Machine.{Machine, Context, Step, with_stack, push_result, halt}
use slura_chain.Uvm.Flow.{op_push, op_dup, op_swap, swapped, found_or_halt, swap_or_halt}
use slura_chain.Uvm.Environment.{op_log, logged, add_log}
use slura_chain.Uvm.Run.{
  Handler, arithmetic, environment, flow, runs_other_code, single, others, dispatch, in_range,
  of_table, from_logs, from_swaps, from_dups,
}
use slura_chain.Uvm.Run.Safe.{
  Safe, IsSafe, charge-Safe, either-Safe, grow-Safe, pushed-Safe, follows_stack,
}
use slura_chain.Uvm.Run.Arithmetic.{arithmetic-IsSafe}
use slura_chain.Uvm.Run.Environment.{environment-IsSafe}
use slura_chain.Uvm.Run.Flow.{flow-IsSafe}

op_push-Safe : (c : Context) (opcode : ℕ) (m : Machine) → Safe m (op_push c opcode m)
unfolding op_push
op_push-Safe c opcode m = charge-Safe m _ 3 _ (omega arith, inl (omega arith), omega arith)

found-Safe :
    (m : Machine) (o : Option ℕ) (reason : String)
    → Safe m (found_or_halt o reason λ v. push_result 3 v m)
found-Safe m none reason = tt
found-Safe m (some v) reason = pushed-Safe m 3 v

op_dup-Safe : (opcode : ℕ) (m : Machine) → Safe m (op_dup opcode m)
unfolding op_dup
op_dup-Safe opcode m = found-Safe m (get_elem? m.evm_stack (opcode - 0x80 + 1 - 1)) _

swap-Safe : (m : Machine) (o : Option (List ℕ)) (reason : String) → Safe m (swap_or_halt o reason m)
swap-Safe m none reason = tt
swap-Safe m (some stack) reason = charge-Safe m (with_stack stack m) 3 1 (follows_stack m stack)

op_swap-Safe : (opcode : ℕ) (m : Machine) → Safe m (op_swap opcode m)
unfolding op_swap
op_swap-Safe opcode m = swap-Safe m (swapped (opcode - 0x90 + 1) m.evm_stack) _

logged-Safe : (c : Context) (n : ℕ) (stack : List ℕ) (m : Machine) → Safe m (logged c n stack m)
logged-Safe c n [] m = tt
logged-Safe c n (a ∷ []) m = tt
logged-Safe c n (offset ∷ size ∷ rest) m =
    grow-Safe m (with_stack (drop n rest) m) (as_usize_or_fail offset) (as_usize_or_fail size) _
      (add_log c n (take n rest) (as_usize_or_fail offset) (as_usize_or_fail size))
      (follows_stack m (drop n rest)) λ mem grows. charge-Safe m _ _ 1 grows

op_log-Safe : (c : Context) (opcode : ℕ) (m : Machine) → Safe m (op_log c opcode m)
unfolding op_log
op_log-Safe c opcode m =
    either-Safe m (ltb (length m.evm_stack) (2 + (opcode - 0xa0)))
      (halt (join "Stack underflow on LOG" (decimal (opcode - 0xa0))))
      (logged c (opcode - 0xa0) m.evm_stack m) tt (logged-Safe c (opcode - 0xa0) m.evm_stack m)

module _ (system : ℕ → Machine → Step)
    (system_safe : (opcode : ℕ) (m : Machine) → Safe m (system opcode m)) where
  table-Safe :
      (table : Map ℕ Handler) (c : Context) (opcode : ℕ) (m : Machine)
      → Entries IsSafe table
      → Safe m (elim (lookup opcode table) [ some h ↦ h m | none ↦ others system c opcode m ])
  table-Safe table c opcode m all = elim (Option-cases (lookup opcode table)) [
    | inl missing ↦
        rw missing (either-Safe m (runs_other_code opcode) _ _ (system_safe opcode m) tt)
    | inr (h, found) ↦ rw found (lookup-Entries IsSafe opcode h table all found m)
  ]

  single-Safe :
      (c : Context) (opcode : ℕ) (m : Machine)
      → Safe m (elim (single c opcode) [ some h ↦ h m | none ↦ others system c opcode m ])
  single-Safe c opcode m = elim (Bool-cases (ltb opcode 0x20)) [
    | inl low ↦ rw low (table-Safe arithmetic c opcode m arithmetic-IsSafe)
    | inr high ↦ elim (Bool-cases (ltb opcode 0x50)) [
      | inl middle ↦
          rw (high, middle) (table-Safe (environment c) c opcode m (environment-IsSafe c))
      | inr top ↦ rw (high, top) (table-Safe (flow c) c opcode m (flow-IsSafe c))
    ]
  ]

  pub dispatch-Safe : (c : Context) (opcode : ℕ) (m : Machine) → Safe m (dispatch system c opcode m)
  unfolding dispatch
  dispatch-Safe c opcode m =
      either-Safe m (in_range 0x60 0x7f opcode) (op_push c opcode m) (from_dups system c opcode m)
        (op_push-Safe c opcode m)
        (either-Safe m (in_range 0x80 0x8f opcode) (op_dup opcode m) (from_swaps system c opcode m)
          (op_dup-Safe opcode m)
          (either-Safe m (in_range 0x90 0x9f opcode) (op_swap opcode m)
            (from_logs system c opcode m) (op_swap-Safe opcode m)
            (either-Safe m (in_range 0xa0 0xa4 opcode) (op_log c opcode m)
              (of_table system c opcode m) (op_log-Safe c opcode m) (single-Safe c opcode m))))
