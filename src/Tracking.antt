-- ===== src/Tracking.antt =====
-- auto-targeting/crates/target-tracker/src: the filter, the single-target tracker and the multi-target
-- tracker.
pub mod Kalman
pub mod Single
pub mod Lock
pub mod Choice
pub mod Multi
pub mod Numbering
pub mod Growth
mod Tests
