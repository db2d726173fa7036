-- ===== src/FcBridge.antt =====
-- auto-targeting/crates/fc-bridge/src/lib.rs: the process between the flight controller and the bus.
pub mod Dispatch
pub mod Loop
pub mod Commands
pub mod Edges
mod Tests
