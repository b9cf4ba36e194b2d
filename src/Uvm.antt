-- ===== src/Uvm.antt =====
-- crates/vuc-reader/src/uvm/runtime/src/interpreter.rs: the interpreter of contract bytecode.
pub mod Word
pub mod Modular
pub mod Memory
pub mod Machine
pub mod Arithmetic
pub mod Flow
pub mod State
pub mod Address
pub mod Environment
pub mod Run
pub mod Execute
pub mod Laws
