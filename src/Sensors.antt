-- ===== src/Sensors.antt =====
-- crates/loadbear-sensors-windows: the parts of the Windows backend that compute.
pub mod Counters
pub mod Processes
pub mod Docker
pub mod Baseline
pub mod Power
pub mod Temperature
pub mod Shared
pub mod Mapping
pub mod Installer
pub mod ServiceControl
pub mod Pawnio
pub mod Topology
pub mod Cpuid
pub mod Presentation
