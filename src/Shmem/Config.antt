-- ===== src/Shmem/Config.antt =====
-- auto-targeting/crates/shmem-buffer/src/ring.rs, its first part: the parameters of a ring, the header
-- that a new segment gets, and the checks of an attaching process. The text of an error is replaced
-- by its reason.
pub mod Attach
mod Tests
use autotargeting.Base.{
  ℕ, ◌*◌, Bool, true, false, not, ◌||◌, Option, none, some, Result, ok, err, ltb, ◌==◌,
  if◌then◌else◌,
}
use autotargeting.Shmem.Layout.{
  BufferHeader, magic_word, layout_version_word, format_nv12, format_rgb24, header_bytes,
  frame_size, segment_size,
}

pub data StorageFormat : Type 0 where
  nv12 rgb24 : StorageFormat

unfoldable pub code : StorageFormat → ℕ
code nv12 = format_nv12
code rgb24 = format_rgb24

unfoldable pub from_code : ℕ → Option StorageFormat
from_code c = if c == format_nv12 then some nv12 else if c == format_rgb24 then some rgb24 else none

pub record RingConfig : Type 0 where
  pub capacity : ℕ  -- u32
  pub width : ℕ  -- u32
  pub height : ℕ  -- u32
  pub format : StorageFormat

pub data Reason : Type 0 where
  capacity_range unsupported_geometry segment_cap : Reason
  short_segment bad_magic bad_version bad_capacity bad_length : Reason

pub data RingError : Type 0 where
  invalid_frame_size : (expected got : ℕ) → RingError
  invalid_config : Reason → RingError
  id_overflow : RingError
  attach_failed : Reason → RingError

unfoldable pub frame_size_check : RingConfig → Option ℕ
unfolding code
frame_size_check c = frame_size (code c.format) c.width c.height

-- `capacity == 0 || capacity > 4096`.
abbrev pub out_of_range : ℕ → Bool
out_of_range capacity = capacity == 0 || ltb 4096 capacity

unfoldable pub validate : RingConfig → Result RingError (Unit {0})
validate c =
    if out_of_range c.capacity
    then err (invalid_config capacity_range)
    else elim (frame_size_check c) [
      | none ↦ err (invalid_config unsupported_geometry)
      | some fs ↦
          if ltb (256 * 1024 * 1024) (segment_size c.capacity fs)
          then err (invalid_config segment_cap)
          else ok tt
    ]

-- What `write_header_init` leaves in a zeroed segment, its magic last. `fs` is the frame size of the
-- configuration, `now` the clock and `pid` the process.
unfoldable pub write_header_init : RingConfig → ℕ → ℕ → ℕ → BufferHeader
write_header_init c fs now pid = record {
  magic = magic_word;
  layout_version = layout_version_word;
  capacity = c.capacity;
  width = c.width;
  height = c.height;
  format = code c.format;
  frame_size = fs;
  write_seq = 0;
  dropped_frames = 0;
  created_ns = now;
  producer_pid = pid;
}

-- The validated view of a segment: its length and the two numbers that addresses come from.
pub record Region : Type 0 where
  pub len : ℕ
  pub capacity : ℕ
  pub frame_size : ℕ

-- `attach_raw`: the checks on a segment of `len` bytes with the header `h`.
unfoldable pub attach_raw : BufferHeader → ℕ → Result RingError Region
attach_raw h len =
    if ltb len header_bytes
    then err (attach_failed short_segment)
    else if not (h.magic == magic_word)
    then err (attach_failed bad_magic)
    else if not (h.layout_version == layout_version_word)
    then err (attach_failed bad_version)
    else if out_of_range h.capacity
    then err (attach_failed bad_capacity)
    else if not (len == segment_size h.capacity h.frame_size)
    then err (attach_failed bad_length)
    else ok (record { len = len; capacity = h.capacity; frame_size = h.frame_size })
