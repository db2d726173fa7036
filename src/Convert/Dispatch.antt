-- ===== src/Convert/Dispatch.antt =====
-- auto-targeting/crates/video-capture/src/convert.rs: the choice of the conversion. The JPEG decoder
-- is a parameter: the pixels, the width and the height, or none where it fails.
use autotargeting.Base.{ℕ, Option, none, some, List, if◌then◌else◌, ok, err}
use autotargeting.Frames.{PixelFormat, format_eq, nv12, yuyv, rgb24, mjpeg, Frame}
use autotargeting.Convert.Defs.{
  Converted, returned, panicked, jpeg_decode, invalid_format, unsupported_conversion,
}
use autotargeting.Convert.Yuyv.{yuyv_to_nv12, yuyv_to_rgb24}
use autotargeting.Convert.Planes.{rgb24_to_nv12, nv12_to_rgb24}

module _ (decode : List ℕ → Option (List ℕ × ℕ × ℕ)) where
  unfoldable pub decode_mjpeg_to_rgb : Frame → Converted
  decode_mjpeg_to_rgb frame =
      let m = frame.metadata in
      if format_eq m.format mjpeg
      then elim (decode frame.bytes) [
        | none ↦ returned (err jpeg_decode)
        | some (pixels, w, h) ↦ returned (
            ok (record {
              bytes = pixels;
              metadata = record {
                width = w;
                height = h;
                format = rgb24;
                captured_at = m.captured_at;
                seq = m.seq;
              };
            }))
      ]
      else returned (err (invalid_format mjpeg m.format))

  unfoldable pub decode_mjpeg_to_nv12 : Frame → Converted
  decode_mjpeg_to_nv12 frame = elim (decode_mjpeg_to_rgb frame) [
    | panicked ↦ panicked
    | returned (err e) ↦ returned (err e)
    | returned (ok rgb) ↦ rgb24_to_nv12 rgb
  ]

  unfoldable pub convert_between : PixelFormat → PixelFormat → Frame → Converted
  convert_between mjpeg rgb24 frame = decode_mjpeg_to_rgb frame
  convert_between mjpeg nv12 frame = decode_mjpeg_to_nv12 frame
  convert_between yuyv nv12 frame = yuyv_to_nv12 frame
  convert_between yuyv rgb24 frame = yuyv_to_rgb24 frame
  convert_between rgb24 nv12 frame = rgb24_to_nv12 frame
  convert_between nv12 rgb24 frame = nv12_to_rgb24 frame
  convert_between from to frame = returned (err (unsupported_conversion from to))

  unfoldable pub convert_to : Frame → PixelFormat → Converted
  convert_to frame target =
      if format_eq frame.metadata.format target
      then returned (ok frame)
      else convert_between frame.metadata.format target frame
