-- ===== src/Uvm/Run.antt =====
-- The loop of `execute_program`: one instruction for each byte of code that the counter reaches.
pub mod Safe
pub mod Arithmetic
pub mod Environment
pub mod Flow
pub mod Dispatch
pub mod Reachable
pub mod Endless
use slura_chain.Base.{
  ℕ, zero, suc, ◌+◌, ◌-◌, ◌*◌, ◌/◌, ◌%◌, ◌^◌, ◌≤◌, ◌<◌, ◌≡◌, refl, sym, ap, ◌∙◌, ◌≢◌, ◌↔◌, ◌⊎◌, inl,
  inr, Bool, true, false, ◌&&◌, ◌||◌, not, Option, none, some, List, [], ◌∷◌, ◌++◌, map, arith,
  String, ltb, leb, nat_beq, if◌then◌else◌, length, length-append, All, Member, last, first, keep,
  find, any, ◌==◌, nat_eq, string_eq, beq_self, Bool-cases, Option-cases, is_some,
}
use slura_chain.Base.Outcome.{and_then}
use slura_chain.Base.Map.{Map, lookup}
use slura_chain.Base.Slices.{get_elem?, repeat}
use slura_chain.Base.Word.{modulus}
use slura_chain.Base.Text.{join}
use slura_chain.Uvm.Machine.{
  Machine, Context, Host, UvmWorldState, BlockInfo, InterpreterArgs, Step, advance, skip_advance,
  continue, return, panic, Action, reverted, halted, completed, halt,
}
use slura_chain.Uvm.Arithmetic.{
  op_add, op_mul, op_sub, op_div, op_sdiv, op_mod, op_smod, op_addmod, op_mulmod, op_exp,
  op_signextend, op_lt, op_gt, op_slt, op_sgt, op_eq, op_iszero, op_and, op_or, op_xor, op_not,
  op_byte, op_shl, op_shr, op_sar,
}
use slura_chain.Uvm.Flow.{
  op_pop, op_mload, op_mstore, op_mstore8, op_jump, op_jumpi, op_pc, op_msize, op_gas, op_jumpdest,
  op_mcopy, op_push0, op_push, op_dup, op_swap, op_stop, op_return, op_revert, op_invalid,
}
use slura_chain.Uvm.State.{op_sload, op_sstore, op_tload, op_tstore}
use slura_chain.Uvm.Address.{
  op_address, op_origin, op_caller, op_balance, op_selfbalance, op_extcodesize, op_extcodehash,
}
use slura_chain.Uvm.Environment.{
  op_keccak256, op_callvalue, op_calldataload, op_calldatasize, op_calldatacopy, op_codesize,
  op_codecopy, op_gasprice, op_extcodecopy, op_returndatasize, op_returndatacopy, op_blockhash,
  op_coinbase, op_timestamp, op_number, op_prevrandao, op_gaslimit, op_chainid, op_basefee,
  op_blobhash, op_blobbasefee, op_log, op_ss7_send,
}

abbrev pub Handler : Type 0
Handler = Machine → Step

-- The instructions of one byte value.
abbrev pub arithmetic : Map ℕ Handler
arithmetic =
    (0x00, op_stop)
    ∷ (0x01, op_add)
    ∷ (0x02, op_mul)
    ∷ (0x03, op_sub)
    ∷ (0x04, op_div)
    ∷ (0x05, op_sdiv)
    ∷ (0x06, op_mod)
    ∷ (0x07, op_smod)
    ∷ (0x08, op_addmod)
    ∷ (0x09, op_mulmod)
    ∷ (0x0a, op_exp)
    ∷ (0x0b, op_signextend)
    ∷ (0x10, op_lt)
    ∷ (0x11, op_gt)
    ∷ (0x12, op_slt)
    ∷ (0x13, op_sgt)
    ∷ (0x14, op_eq)
    ∷ (0x15, op_iszero)
    ∷ (0x16, op_and)
    ∷ (0x17, op_or)
    ∷ (0x18, op_xor)
    ∷ (0x19, op_not)
    ∷ (0x1a, op_byte)
    ∷ (0x1b, op_shl)
    ∷ (0x1c, op_shr)
    ∷ (0x1d, op_sar)
    ∷ []

abbrev pub environment : Context → Map ℕ Handler
environment c =
    (0x20, op_keccak256 c)
    ∷ (0x30, op_address c)
    ∷ (0x31, op_balance c)
    ∷ (0x32, op_origin c)
    ∷ (0x33, op_caller c)
    ∷ (0x34, op_callvalue c)
    ∷ (0x35, op_calldataload c)
    ∷ (0x36, op_calldatasize c)
    ∷ (0x37, op_calldatacopy c)
    ∷ (0x38, op_codesize c)
    ∷ (0x39, op_codecopy c)
    ∷ (0x3a, op_gasprice c)
    ∷ (0x3b, op_extcodesize c)
    ∷ (0x3c, op_extcodecopy c)
    ∷ (0x3d, op_returndatasize)
    ∷ (0x3e, op_returndatacopy)
    ∷ (0x3f, op_extcodehash c)
    ∷ (0x40, op_blockhash)
    ∷ (0x41, op_coinbase c)
    ∷ (0x42, op_timestamp)
    ∷ (0x43, op_number)
    ∷ (0x44, op_prevrandao)
    ∷ (0x45, op_gaslimit)
    ∷ (0x46, op_chainid)
    ∷ (0x47, op_selfbalance c)
    ∷ (0x48, op_basefee)
    ∷ (0x49, op_blobhash)
    ∷ (0x4a, op_blobbasefee)
    ∷ []

abbrev pub flow : Context → Map ℕ Handler
flow c =
    (0x50, op_pop)
    ∷ (0x51, op_mload)
    ∷ (0x52, op_mstore)
    ∷ (0x53, op_mstore8)
    ∷ (0x54, op_sload c)
    ∷ (0x55, op_sstore c)
    ∷ (0x56, op_jump)
    ∷ (0x57, op_jumpi)
    ∷ (0x58, op_pc)
    ∷ (0x59, op_msize)
    ∷ (0x5a, op_gas c)
    ∷ (0x5b, op_jumpdest)
    ∷ (0x5c, op_tload)
    ∷ (0x5d, op_tstore)
    ∷ (0x5e, op_mcopy)
    ∷ (0x5f, op_push0)
    ∷ (0xec, op_ss7_send)
    ∷ (0xf3, op_return)
    ∷ (0xfd, op_revert)
    ∷ (0xfe, op_invalid)
    ∷ []

-- The instructions that run other code: 0xef, CREATE, CALL, CALLCODE, DELEGATECALL, CREATE2, AUTH,
-- AUTHCALL and STATICCALL.
abbrev pub runs_other_code : ℕ → Bool
runs_other_code opcode =
    any (λ o. nat_beq o opcode) (0xef ∷ 0xf0 ∷ 0xf1 ∷ 0xf2 ∷ 0xf4 ∷ 0xf5 ∷ 0xf6 ∷ 0xf7 ∷ 0xfa ∷ [])

-- `Opcode not found 0x{:02x}`: the number is printed by the host.
abbrev unknown : Context → ℕ → Step
unknown c opcode = halt (join "Opcode not found 0x" (c.host.hex_encode (opcode ∷ [])))

abbrev pub single : Context → ℕ → Option Handler
single c opcode =
    if ltb opcode 0x20
    then lookup opcode arithmetic
    else if ltb opcode 0x50
    then lookup opcode (environment c)
    else lookup opcode (flow c)

abbrev pub in_range : ℕ → ℕ → ℕ → Bool
in_range from to opcode = leb from opcode && leb opcode to

module _ (system : ℕ → Machine → Step) where
  abbrev pub others : Context → ℕ → Machine → Step
  others c opcode m = if runs_other_code opcode then system opcode m else unknown c opcode

  abbrev pub of_table : Context → ℕ → Machine → Step
  of_table c opcode m = elim (single c opcode) [ some h ↦ h m | none ↦ others c opcode m ]

  abbrev pub from_logs : Context → ℕ → Machine → Step
  from_logs c opcode m =
      if in_range 0xa0 0xa4 opcode then op_log c opcode m else of_table c opcode m

  abbrev pub from_swaps : Context → ℕ → Machine → Step
  from_swaps c opcode m =
      if in_range 0x90 0x9f opcode then op_swap opcode m else from_logs c opcode m

  abbrev pub from_dups : Context → ℕ → Machine → Step
  from_dups c opcode m =
      if in_range 0x80 0x8f opcode then op_dup opcode m else from_swaps c opcode m

  -- `match opcode`: the ranges of byte values first, then the single values.
  unfoldable pub dispatch : Context → ℕ → Machine → Step
  dispatch c opcode m =
      if in_range 0x60 0x7f opcode then op_push c opcode m else from_dups c opcode m

-- What is left of a round: the loop goes on, the run ends, or it panics.
pub data Round : Type 0 where
  again : Machine → Round
  done : Action → Round
  panicked : Round

abbrev pub checked_stack : Machine → Round
checked_stack m = if ltb 1024 (length m.evm_stack) then done (halted "Stack overflow") else again m

-- The bottom of the loop. The counter is a `usize`.
unfoldable pub bottom : Step → Round
bottom (advance n m) = checked_stack (record m { bytecode_pc = (m.bytecode_pc + n) % modulus })
bottom (skip_advance m) = checked_stack m
bottom (continue m) = again m
bottom (return a) = done a
bottom panic = panicked

module _ (system : ℕ → Machine → Step) where
  abbrev pub round_on : Option ℕ → Context → Machine → Round
  round_on none c m = done completed
  round_on (some opcode) c m = bottom (dispatch system c opcode m)

  -- One test of the loop and its body.
  unfoldable pub round : Context → Machine → Round
  round c m = round_on (get_elem? c.prog m.bytecode_pc) c m

  abbrev next_round : Round → (Machine → Option Round) → Option Round
  next_round (again m) k = k m
  next_round (done a) k = some (done a)
  next_round panicked k = some panicked

  -- `while bytecode_pc < prog.len()`: `none` is a loop that the fuel does not end.
  unfoldable pub run : ℕ → Context → Machine → Option Round
  run zero c m = none
  run (suc fuel) c m = next_round (round c m) (run fuel c)
