-- ===== src/Bridge.antt =====
-- auto-targeting/crates/cv-inference/src/bridge_client.rs: the client of the process that runs the
-- network, over a local socket and a shared segment for the frames.
pub mod Base64
pub mod Decoding
pub mod Framing
pub mod Segment
pub mod Client
pub mod Answers
pub mod Buffers
mod Tests
