-- ===== src/Shmem.antt =====
-- auto-targeting/crates/shmem-buffer: the ring of video frames in shared memory.
pub mod Layout
pub mod Config
pub mod Ring
pub mod Threads
