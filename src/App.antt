-- ===== src/App.antt =====
-- crates/loadbear-app: the window and the loop that makes what it shows.
pub mod Words
pub mod Running
pub mod Modes
pub mod State
pub mod Setup
pub mod Tick
pub mod Startup
