-- ===== src/Core/Attribution.antt =====
-- crates/loadbear-core/src/attribution.rs: naming what is responsible, in three layers.
pub mod Groups
pub mod Leaders
pub mod Causes
