-- ===== src/Shmem/Layout.antt =====
-- auto-targeting/crates/shmem-buffer/src/layout.rs: where the parts of a segment stand. Sizes are in
-- bytes; `usize` has 64 bits, and the sums of two products of `u32` values below fit it.
pub mod Bounds
use autotargeting.Base.{
  ℕ, ◌+◌, ◌*◌, ◌/◌, ◌%◌, ◌^◌, ◌-◌, Bool, not, ◌||◌, Option, none, some, ltb, ◌==◌, if◌then◌else◌,
  and_then,
}

-- `u32::from_le_bytes(*b"ATFB")`.
abbrev pub magic_word : ℕ
magic_word = 0x42465441

abbrev pub layout_version_word : ℕ
layout_version_word = 1

abbrev pub format_nv12 : ℕ
format_nv12 = 0

abbrev pub format_rgb24 : ℕ
format_rgb24 = 1

-- `u32::MAX`.
abbrev pub writer_lock : ℕ
writer_lock = 2 ^ 32 - 1

-- The sizes of the two `repr(C, align(64))` structures.
abbrev pub header_bytes : ℕ
header_bytes = 64

abbrev pub slot_bytes : ℕ
slot_bytes = 64

pub record BufferHeader : Type 0 where
  pub magic : ℕ
  pub layout_version : ℕ
  pub capacity : ℕ
  pub width : ℕ
  pub height : ℕ
  pub format : ℕ
  pub frame_size : ℕ
  pub write_seq : ℕ  -- u64
  pub dropped_frames : ℕ  -- u64
  pub created_ns : ℕ
  pub producer_pid : ℕ

-- `u64::checked_mul(3)` and `u32::try_from(..).ok()`.
abbrev checked_triple : ℕ → Option ℕ
checked_triple px = if ltb (px * 3) (2 ^ 64) then some (px * 3) else none

abbrev to_u32 : ℕ → Option ℕ
to_u32 n = if ltb n (2 ^ 32) then some n else none

unfoldable pub frame_size : ℕ → ℕ → ℕ → Option ℕ
frame_size format width height =
    let px = width * height in
    if width == 0 || height == 0
    then none
    else if format == format_nv12
    then if not (width % 2 == 0) || not (height % 2 == 0)
      then none
      else and_then (checked_triple px) (λ t. to_u32 (t / 2))
    else if format == format_rgb24
    then and_then (checked_triple px) to_u32
    else none

unfoldable pub data_area_offset : ℕ → ℕ
data_area_offset capacity = header_bytes + capacity * slot_bytes

unfoldable pub segment_size : ℕ → ℕ → ℕ
unfolding data_area_offset
segment_size capacity frame_size = data_area_offset capacity + capacity * frame_size

-- The offset that `Region::slot` computes.
unfoldable pub slot_offset : ℕ → ℕ
slot_offset idx = header_bytes + idx * slot_bytes

-- The offset that `Region::data_ptr` computes.
unfoldable pub data_offset : ℕ → ℕ → ℕ → ℕ
unfolding data_area_offset
data_offset capacity frame_size idx = data_area_offset capacity + idx * frame_size
