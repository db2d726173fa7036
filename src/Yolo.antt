-- ===== src/Yolo.antt =====
-- auto-targeting/crates/yolov8/src/lib.rs: from the output of the network to detections in the frame.
pub mod Candidates
pub mod Postprocess
pub mod Columns
pub mod Frame
mod Tests
