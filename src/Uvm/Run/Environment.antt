-- ===== src/Uvm/Run/Environment.antt =====
-- The instructions on data, code, accounts and blocks are safe.
use slura_chain.Base.{ℕ, ◌+◌, ◌*◌, List, [], ◌∷◌, String, ltb, nat_eq, string_eq}
use slura_chain.Base.Map.{Entries}
use slura_chain.Uvm.Word.{word_modulus}
use slura_chain.Uvm.Memory.{as_usize_or_fail, copy_loop}
use slura_chain.Uvm.Memory.Laws.{length-copy_loop}
use slura_chain.Uvm.Machine.{Machine, Context, with_stack, halt, panic, Step, pop_three}
use slura_chain.Uvm.Address.{
  u256_to_address, op_address, op_balance, op_caller, op_extcodehash, op_extcodesize, op_origin,
  op_selfbalance,
}
use slura_chain.Uvm.Environment.{
  copied, hashed, copy_code, on_four, fetched, words, op_keccak256, op_callvalue, op_calldataload,
  op_calldatasize, op_calldatacopy, op_codesize, op_codecopy, op_gasprice, op_extcodecopy,
  op_returndatasize, op_returndatacopy, op_blockhash, op_coinbase, op_timestamp, op_number,
  op_prevrandao, op_gaslimit, op_chainid, op_basefee, op_blobhash, op_blobbasefee,
}
use slura_chain.Uvm.Run.{environment}
use slura_chain.Uvm.Run.Safe.{
  Safe, Follows, IsSafe, charge-Safe, either-Safe, grow-Safe, pushed-Safe, unary-Safe, follows_mem,
  follows_stack, grow_two-Safe, pop_three-Safe, with_mem,
}

copied-Safe :
    (reason : String) (base dest offset size : ℕ) (source : List ℕ) (before m : Machine)
    → Follows before m
    → Safe before (copied reason base dest offset size source m)
copied-Safe reason base dest offset size source before m h =
    grow-Safe before m (as_usize_or_fail dest) (as_usize_or_fail size) reason _ h λ mem grows.
      let copy =
        copy_loop (as_usize_or_fail size) 0 (as_usize_or_fail dest) (as_usize_or_fail offset) source
          mem in
      either-Safe before (ltb (offset + size) word_modulus) _ panic
        (charge-Safe before (with_mem copy m) (base + 3 * words (as_usize_or_fail size)) 1 (
          follows_mem before (with_mem mem m) copy
            (length-copy_loop (as_usize_or_fail size) 0 (as_usize_or_fail dest)
              (as_usize_or_fail offset) source mem)
            grows))
        tt

abbrev hashed_at : Context → ℕ → ℕ → Machine → Step
hashed_at c offset size m = hashed c (as_usize_or_fail offset) (as_usize_or_fail size) m

op_keccak256-Safe : (c : Context) (m : Machine) → Safe m (op_keccak256 c m)
unfolding op_keccak256
op_keccak256-Safe c m =
    grow_two-Safe _ m _ _ _ (hashed_at c)
      λ offset size after h. charge-Safe m _ (30 + 6 * words (as_usize_or_fail size)) 1 h

op_extcodecopy-Safe : (c : Context) (m : Machine) → Safe m (op_extcodecopy c m)
unfolding op_extcodecopy
op_extcodecopy-Safe c m = by_stack m.evm_stack
  where
    by_stack :
        (s : List ℕ)
        → Safe m (
            on_four s (halt "Stack underflow on EXTCODECOPY") λ address dest offset size rest.
              copy_code dest offset size
                (fetched c.host m.world_state (u256_to_address c.host address))
                (with_stack rest m))
    by_stack [] = tt
    by_stack (a ∷ []) = tt
    by_stack (a ∷ b ∷ []) = tt
    by_stack (a ∷ b ∷ d ∷ []) = tt
    by_stack (address ∷ dest ∷ offset ∷ size ∷ rest) =
        copied-Safe _ 100 dest offset size _ m
          (record (with_stack rest m) {
            world_state = (fetched c.host m.world_state (u256_to_address c.host address)).1;
          })
          (follows_stack m rest)

copy-Safe :
    (missing refused : String) (source : Machine → List ℕ) (m : Machine)
    → Safe m
        (pop_three missing m λ dest offset size m. copied refused 3 dest offset size (source m) m)
copy-Safe missing refused source m =
    pop_three-Safe missing m (λ dest offset size m. copied refused 3 dest offset size (source m) m)
      λ dest offset size rest fewer.
        copied-Safe refused 3 dest offset size (source (with_stack rest m)) m (with_stack rest m)
          (follows_stack m rest)

pub environment-IsSafe : (c : Context) → Entries IsSafe (environment c)
unfolding op_keccak256 op_address op_balance op_origin op_caller op_callvalue op_calldataload
    op_calldatasize op_calldatacopy op_codesize op_codecopy op_gasprice op_extcodesize
    op_extcodecopy op_returndatasize op_returndatacopy op_extcodehash op_blockhash op_coinbase
    op_timestamp op_number op_prevrandao op_gaslimit op_chainid op_selfbalance op_basefee
    op_blobhash op_blobbasefee
environment-IsSafe c = (
  op_keccak256-Safe c,
  (
    (λ m. pushed-Safe m _ _),
    (
      (λ m. unary-Safe _ m _ _),
      (
        (λ m. pushed-Safe m _ _),
        (
          (λ m. pushed-Safe m _ _),
          (
            (λ m. pushed-Safe m _ _),
            (
              (λ m. unary-Safe _ m _ _),
              (
                (λ m. pushed-Safe m _ _),
                (
                  (λ m.
                      copy-Safe _ "Memory resize failed on CALLDATACOPY"
                        (λ m. c.interpreter_args.state_data) m),
                  (
                    (λ m. pushed-Safe m _ _),
                    (
                      (λ m. copy-Safe _ "Memory resize failed on CODECOPY" (λ m. c.prog) m),
                      (
                        (λ m. pushed-Safe m _ _),
                        (
                          (λ m. unary-Safe _ m _ _),
                          (
                            op_extcodecopy-Safe c,
                            (
                              (λ m. pushed-Safe m _ _),
                              (
                                (λ m.
                                    copy-Safe _ "Memory resize failed on RETURNDATACOPY"
                                      (λ m. m.return_data) m),
                                (
                                  (λ m. unary-Safe _ m _ _),
                                  (
                                    (λ m. unary-Safe _ m _ _),
                                    (
                                      (λ m. pushed-Safe m _ _),
                                      (
                                        (λ m. pushed-Safe m _ _),
                                        (
                                          (λ m. pushed-Safe m _ _),
                                          (
                                            (λ m. pushed-Safe m _ _),
                                            (
                                              (λ m. pushed-Safe m _ _),
                                              (
                                                (λ m. pushed-Safe m _ _),
                                                (
                                                  (λ m. pushed-Safe m _ _),
                                                  (
                                                    (λ m. pushed-Safe m _ _),
                                                    (
                                                      (λ m. unary-Safe _ m _ _),
                                                      ((λ m. pushed-Safe m _ _), tt),
                                                    ),
                                                  ),
                                                ),
                                              ),
                                            ),
                                          ),
                                        ),
                                      ),
                                    ),
                                  ),
                                ),
                              ),
                            ),
                          ),
                        ),
                      ),
                    ),
                  ),
                ),
              ),
            ),
          ),
        ),
      ),
    ),
  ),
)
