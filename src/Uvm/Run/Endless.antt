-- ===== src/Uvm/Run/Endless.antt =====
-- Gas is counted but never compared with the limit.
use slura_chain.Base.{
  ℕ, zero, suc, ◌+◌, ◌*◌, ◌≤◌, ◌<◌, ◌≡◌, refl, true, false, none, List, [], ◌∷◌, arith, ltb, length,
  nat_eq, string_eq,
}
use slura_chain.Uvm.Word.{word_modulus}
use slura_chain.Uvm.Memory.Laws.{as_usize_saturated-zero}
use slura_chain.Uvm.Machine.{Machine, Context, Step, consume_gas_amount}
use slura_chain.Uvm.Flow.{op_jumpdest, op_push, op_jump, push_data}
use slura_chain.Uvm.Run.{again, run, round, bottom, dispatch}

-- JUMPDEST, PUSH1 0, JUMP.
abbrev pub endless : List ℕ
endless = 0x5b ∷ 0x60 ∷ 0x00 ∷ 0x56 ∷ []

module _ (system : ℕ → Machine → Step) (c : Context) (m : Machine) (code : c.prog ≡ endless) where
  at_jumpdest :
      m.bytecode_pc ≡ 0
      → m.gas_used + 1 < word_modulus
      → length m.evm_stack ≤ 1024
      → round system c m ≡ again (record m { bytecode_pc = 1; gas_used = m.gas_used + 1 })
  unfolding round dispatch op_jumpdest bottom consume_gas_amount
  at_jumpdest pc gas fits =
      let counted : ltb (m.gas_used + 1) word_modulus ≡ true = ground arith in
      let small : ltb 1024 (length m.evm_stack) ≡ false = ground arith in
      rw (code, pc, counted, small) refl

  at_push :
      m.bytecode_pc ≡ 1
      → m.gas_used + 3 < word_modulus
      → length m.evm_stack ≤ 1023
      → round system c m
        ≡ again
            (record m { bytecode_pc = 3; evm_stack = 0 ∷ m.evm_stack; gas_used = m.gas_used + 3 })
  unfolding round dispatch op_push push_data bottom consume_gas_amount
  at_push pc gas fits =
      let counted : ltb (m.gas_used + 3) word_modulus ≡ true = ground arith in
      let small : ltb 1024 (length (0 ∷ m.evm_stack)) ≡ false = ground arith in
      rw (code, pc, counted, small) refl

  at_jump :
      (rest : List ℕ)
      → m.bytecode_pc ≡ 3
      → m.evm_stack ≡ 0 ∷ rest
      → m.gas_used + 8 < word_modulus
      → length rest ≤ 1024
      → round system c m
        ≡ again (record m { bytecode_pc = 0; evm_stack = rest; gas_used = m.gas_used + 8 })
  unfolding round dispatch op_jump bottom consume_gas_amount
  at_jump rest pc stack gas fits =
      let counted : ltb (m.gas_used + 8) word_modulus ≡ true = ground arith in
      let small : ltb 1024 (length rest) ≡ false = ground arith in
      rw (code, pc, stack, as_usize_saturated-zero, counted, small) refl

-- The three places of the loop, with the stack that the code has there.
pub data Looping : Machine → Type 0 where
  before_dest : {m : Machine} → m.bytecode_pc ≡ 0 → length m.evm_stack ≤ 1000 → Looping m
  before_push : {m : Machine} → m.bytecode_pc ≡ 1 → length m.evm_stack ≤ 1000 → Looping m
  before_jump :
      {m : Machine} (rest : List ℕ)
      → m.bytecode_pc ≡ 3
      → m.evm_stack ≡ 0 ∷ rest
      → length rest ≤ 1000
      → Looping m

-- The code JUMPDEST, PUSH1 0, JUMP does not end a run, whatever the gas limit: no number of rounds gives a result, from the places of the loop with at most 1000 entries below its own, as long as eight of gas for each round do not overflow the counter.
pub run-endless :
    (system : ℕ → Machine → Step) (fuel : ℕ) (c : Context) (m : Machine)
    → c.prog ≡ endless
    → Looping m
    → m.gas_used + 8 * fuel < word_modulus
    → run system fuel c m ≡ none
unfolding run
run-endless system zero c m code at gas = refl
run-endless system (suc fuel) c m code (before_dest pc fits) gas =
    rw (at_jumpdest system c m code pc (omega arith) (omega arith)) (
      run-endless system fuel c (record m { bytecode_pc = 1; gas_used = m.gas_used + 1 }) code
        (before_push refl fits) (omega arith))
run-endless system (suc fuel) c m code (before_push pc fits) gas =
    rw (at_push system c m code pc (omega arith) (omega arith)) (
      run-endless system fuel c
        (record m { bytecode_pc = 3; evm_stack = 0 ∷ m.evm_stack; gas_used = m.gas_used + 3 }) code
        (before_jump m.evm_stack refl refl fits) (omega arith))
run-endless system (suc fuel) c m code (before_jump rest pc stack fits) gas =
    rw (at_jump system c m code rest pc stack (omega arith) (omega arith)) (
      run-endless system fuel c
        (record m { bytecode_pc = 0; evm_stack = rest; gas_used = m.gas_used + 8 }) code
        (before_dest refl fits) (omega arith))
