-- ===== src/Uvm/Laws.antt =====
-- What single instructions do: equations between instructions and with exact arithmetic.
pub mod Words
pub mod Memory
pub mod Storage
pub mod Stack
