-- ===== src/Convert.antt =====
-- auto-targeting/crates/video-capture/src/convert.rs: conversion of frames between the formats of
-- the camera, the accelerator and the recorder.
pub mod Defs
pub mod Yuyv
pub mod Planes
pub mod Dispatch
pub mod Sizes
pub mod Outcome
pub mod Luma
mod Tests
