-- ===== src/Apps.antt =====
-- crates/vuc-core/lunee-ker/src/app_registry.rs: the applications that the dock shows.
pub mod Menu
pub mod Registry
