-- ===== src/Bundle.antt =====
-- crates/vuc-core/lunee-ker/src/bundle_loader: the archives that applications come in.
pub mod Zip
