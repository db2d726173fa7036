-- ===== src/Convert/Defs.antt =====
-- auto-targeting/crates/video-capture/src/convert.rs: the errors, the checks that every conversion
-- starts with, and the arithmetic of one pixel.
use autotargeting.Base.{
  ℕ, ◌+◌, ◌*◌, ◌/◌, Option, none, some, List, ◌==◌, if◌then◌else◌, length, get_elem?, replicate,
  Result, ok, err, ℤ, pos, ◌+ℤ◌, ◌-ℤ◌, scale, shr, clamp_u8, u64,
}
use autotargeting.Frames.{PixelFormat, format_eq, nv12, yuyv, rgb24, mjpeg, FrameMetadata, Frame}

pub data ConversionError : Type 0 where
  jpeg_decode : ConversionError
  invalid_format : (expected actual : PixelFormat) → ConversionError
  invalid_dimensions : (w h len : ℕ) → ConversionError
  unsupported_conversion : (from to : PixelFormat) → ConversionError

-- How a conversion ends; a slice out of bounds and `chunks_exact(0)` panic.
pub data Converted : Type 0 where
  returned : Result ConversionError Frame → Converted
  panicked : Converted

-- The length that the code asks for, in `usize` of 64 bits, whose products wrap in a release build.
abbrev pub expected_len : PixelFormat → ℕ → ℕ → ℕ
expected_len nv12 w h = u64 (u64 (w * h) * 3) / 2
expected_len yuyv w h = u64 (u64 (w * h) * 2)
expected_len rgb24 w h = u64 (u64 (w * h) * 3)
expected_len mjpeg w h = 0

-- The metadata of a result: the size of the input, its time and its number, and the new format.
abbrev pub reformat : PixelFormat → FrameMetadata → FrameMetadata
reformat f m = record {
  width = m.width;
  height = m.height;
  format = f;
  captured_at = m.captured_at;
  seq = m.seq;
}

-- `vec![0u8; n]`.
abbrev pub zeros : ℕ → List ℕ
zeros n = replicate n 0

-- The two checks, then the loops `body`, of which the first has chunks as wide as the frame. The loops
-- are written with the sizes before any wrap, for frames whose three bytes a pixel fit in 64 bits.
unfoldable pub checked :
    (from to : PixelFormat) → (ℕ → ℕ → List ℕ → Option (List ℕ)) → Frame → Converted
checked from to body frame =
    let m = frame.metadata in
    if format_eq m.format from
    then (if length frame.bytes == expected_len from m.width m.height
        then (if m.width == 0 then panicked else elim (body m.width m.height frame.bytes) [
          | none ↦ panicked
          | some bytes ↦ returned (ok (record { bytes = bytes; metadata = reformat to m }))
        ])
        else returned (err (invalid_dimensions m.width m.height (length frame.bytes))))
    else returned (err (invalid_format from m.format))

-- The byte `xs[i]` of a chunk; the code reads inside its chunks only.
unfoldable pub byte : List ℕ → ℕ → ℕ
byte xs i = elim (get_elem? xs i) [ none ↦ 0 | some b ↦ b ]

-- `xs.get(i).copied().unwrap_or(128)`.
unfoldable pub byte_or_neutral : List ℕ → ℕ → ℕ
byte_or_neutral xs i = elim (get_elem? xs i) [ none ↦ 128 | some b ↦ b ]

abbrev pub centred : ℕ → ℤ
centred c = pos c -ℤ pos 128

unfoldable pub ycbcr_to_rgb_i32 : ℕ → ℤ → ℤ → ℕ × ℕ × ℕ
ycbcr_to_rgb_i32 y cb cr =
    let r = pos y +ℤ shr (scale 359 cr) 8 in
    let g = pos y -ℤ shr (scale 88 cb +ℤ scale 183 cr) 8 in
    let b = pos y +ℤ shr (scale 454 cb) 8 in (clamp_u8 r, clamp_u8 g, clamp_u8 b)

unfoldable pub rgb_to_y_u8 : ℕ → ℕ → ℕ → ℕ
rgb_to_y_u8 r g b = clamp_u8 (shr (pos (77 * r + 150 * g + 29 * b + 128)) 8)

unfoldable pub rgb_to_cb : List ℕ → ℤ
rgb_to_cb px =
    pos 0
    -ℤ scale 43 (pos (byte px 0))
    -ℤ scale 85 (pos (byte px 1))
    +ℤ scale 128 (pos (byte px 2))
    +ℤ pos 32_768

unfoldable pub rgb_to_cr : List ℕ → ℤ
rgb_to_cr px =
    scale 128 (pos (byte px 0))
    -ℤ scale 107 (pos (byte px 1))
    -ℤ scale 21 (pos (byte px 2))
    +ℤ pos 32_768
