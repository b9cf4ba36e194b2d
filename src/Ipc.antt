-- ===== src/Ipc.antt =====
-- crates/vuc-core/lunee-ker/src/whesere_ipc.rs: the shared ring buffer.
pub mod Ring
pub mod Frames
