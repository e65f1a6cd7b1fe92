-- ===== src/Sensors/Temperature.antt =====
-- crates/loadbear-sensors-windows/src/temperature.rs: the source of temperatures, over the driver's
-- answers.
pub mod Registers
pub mod Amd
pub mod Intel
pub mod PmTable
pub mod Source
pub mod Credible
mod Examples
