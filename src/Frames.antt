-- ===== src/Frames.antt =====
-- auto-targeting/crates/common/src/types.rs: the frames of the camera.
use autotargeting.Base.{ℕ, ◌≡◌, ◌↔◌, Bool, true, ◌==◌, List, arith}

pub data PixelFormat : Type 0 where
  nv12 yuyv rgb24 mjpeg : PixelFormat

abbrev code : PixelFormat → ℕ
code nv12 = 0
code yuyv = 1
code rgb24 = 2
code mjpeg = 3

-- The derived `PartialEq`.
abbrev pub format_eq : PixelFormat → PixelFormat → Bool
format_eq a b = code a == code b

pub format_eq_iff : (a b : PixelFormat) → (format_eq a b ≡ true) ↔ (a ≡ b)
format_eq_iff a b = ground arith

pub record FrameMetadata : Type 0 where
  pub width : ℕ
  pub height : ℕ
  pub format : PixelFormat
  pub captured_at : ℕ
  pub seq : ℕ

-- The bytes of a frame (`data`) and what is known of it.
pub record Frame : Type 0 where
  pub bytes : List ℕ
  pub metadata : FrameMetadata
