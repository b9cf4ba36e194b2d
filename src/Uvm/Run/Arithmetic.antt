-- ===== src/Uvm/Run/Arithmetic.antt =====
-- The instructions on words are safe.
use slura_chain.Base.{nat_eq, string_eq}
use slura_chain.Base.Map.{Entries}
use slura_chain.Uvm.Arithmetic.{
  op_add, op_mul, op_sub, op_div, op_sdiv, op_mod, op_smod, op_addmod, op_mulmod, op_exp,
  op_signextend, op_lt, op_gt, op_slt, op_sgt, op_eq, op_iszero, op_and, op_or, op_xor, op_not,
  op_byte, op_shl, op_shr, op_sar,
}
use slura_chain.Uvm.Flow.{op_stop}
use slura_chain.Uvm.Run.{arithmetic}
use slura_chain.Uvm.Run.Safe.{
  IsSafe, unary-Safe, binary-Safe, checked_binary-Safe, checked_ternary-Safe,
}

pub arithmetic-IsSafe : Entries IsSafe arithmetic
unfolding op_stop op_add op_mul op_sub op_div op_sdiv op_mod op_smod op_addmod op_mulmod op_exp
    op_signextend op_lt op_gt op_slt op_sgt op_eq op_iszero op_and op_or op_xor op_not op_byte
    op_shl op_shr op_sar
arithmetic-IsSafe = (
  (λ m. tt),
  (
    (λ m. binary-Safe _ m _ _),
    (
      (λ m. binary-Safe _ m _ _),
      (
        (λ m. binary-Safe _ m _ _),
        (
          (λ m. binary-Safe _ m _ _),
          (
            (λ m. checked_binary-Safe _ m _ _),
            (
              (λ m. binary-Safe _ m _ _),
              (
                (λ m. checked_binary-Safe _ m _ _),
                (
                  (λ m. checked_ternary-Safe _ m _ _),
                  (
                    (λ m. checked_ternary-Safe _ m _ _),
                    (
                      (λ m. binary-Safe _ m _ _),
                      (
                        (λ m. checked_binary-Safe _ m _ _),
                        (
                          (λ m. binary-Safe _ m _ _),
                          (
                            (λ m. binary-Safe _ m _ _),
                            (
                              (λ m. binary-Safe _ m _ _),
                              (
                                (λ m. binary-Safe _ m _ _),
                                (
                                  (λ m. binary-Safe _ m _ _),
                                  (
                                    (λ m. unary-Safe _ m _ _),
                                    (
                                      (λ m. binary-Safe _ m _ _),
                                      (
                                        (λ m. binary-Safe _ m _ _),
                                        (
                                          (λ m. binary-Safe _ m _ _),
                                          (
                                            (λ m. unary-Safe _ m _ _),
                                            (
                                              (λ m. binary-Safe _ m _ _),
                                              (
                                                (λ m. binary-Safe _ m _ _),
                                                (
                                                  (λ m. binary-Safe _ m _ _),
                                                  ((λ m. binary-Safe _ m _ _), tt),
                                                ),
                                              ),
                                            ),
                                          ),
                                        ),
                                      ),
                                    ),
                                  ),
                                ),
                              ),
                            ),
                          ),
                        ),
                      ),
                    ),
                  ),
                ),
              ),
            ),
          ),
        ),
      ),
    ),
  ),
)
