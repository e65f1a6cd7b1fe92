-- ===== src/Core.antt =====
-- crates/loadbear-core: the diagnosis, which makes no system call.
pub mod Types
pub mod Spec
pub mod Verdict
pub mod Tier
pub mod Contract
pub mod Attribution
pub mod Samples
