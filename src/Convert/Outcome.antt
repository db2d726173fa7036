-- ===== src/Convert/Outcome.antt =====
-- How the conversions of auto-targeting/crates/video-capture/src/convert.rs end.
use autotargeting.Base.{ℕ, ◌%◌, ◌^◌, ◌<◌, ◌≡◌, ◌≢◌, refl, Option, List, length, ok, err, arith}
use autotargeting.Frames.{PixelFormat, format_eq_iff, nv12, yuyv, rgb24, Frame}
use autotargeting.Convert.Defs.{
  Converted, returned, checked, expected_len, reformat, invalid_dimensions,
}
use autotargeting.Convert.Yuyv.{yuyv_to_nv12, yuyv_to_rgb24}
use autotargeting.Convert.Planes.{rgb24_to_nv12, nv12_to_rgb24}
use autotargeting.Convert.Dispatch.{convert_to, convert_between}
use autotargeting.Convert.Sizes.{
  Fills, pixel_len, expected_len-pixel_len, yuyv_planes-Fills, yuyv_pixels-Fills, nv12_pixels-Fills,
  rgb_planes-Fills,
}

-- The pairs of formats that need no JPEG decoder.
pub data IsDirect : PixelFormat → PixelFormat → Type 0 where
  packed_to_planes : IsDirect yuyv nv12
  packed_to_pixels : IsDirect yuyv rgb24
  pixels_to_planes : IsDirect rgb24 nv12
  planes_to_pixels : IsDirect nv12 rgb24

-- A frame that holds as many bytes as its size and its format say, fewer than 2^63 (as every `Vec`
-- does), and has columns.
abbrev pub IsSized : Frame → Type 0
IsSized f =
    (length f.bytes ≡ pixel_len f.metadata.format f.metadata.width f.metadata.height)
    × (length f.bytes < 2 ^ 63)
    × (0 < f.metadata.width)

abbrev pub IsConverted : PixelFormat → Frame → Frame → Type 0
IsConverted to f r =
    (r.metadata ≡ reformat to f.metadata)
    × (length r.bytes ≡ pixel_len to f.metadata.width f.metadata.height)

checked-IsConverted :
    (from to : PixelFormat) (body : ℕ → ℕ → List ℕ → Option (List ℕ)) (f : Frame)
    → f.metadata.format ≡ from
    → IsSized f
    → Fills from to body f.metadata.width f.metadata.height
    → (r : Frame) × (checked from to body f ≡ returned (ok r)) × IsConverted to f r
unfolding checked
checked-IsConverted from to body f e sized fills =
    let m = f.metadata in
    let out = fills f.bytes (ground (arith, e, sized.0)) in
    (
      record { bytes = out.0; metadata = reformat to m },
      ground (
        arith,
        format_eq_iff m.format from,
        e,
        sized.0,
        sized.2,
        out.1,
        expected_len-pixel_len from m.width m.height (ground (arith, e, sized.0, sized.1)),
      ),
      (refl, out.2),
    )

checked_wrong_size :
    (from to : PixelFormat) (body : ℕ → ℕ → List ℕ → Option (List ℕ)) (f : Frame)
    → f.metadata.format ≡ from
    → length f.bytes ≢ expected_len from f.metadata.width f.metadata.height
    → checked from to body f
      ≡ returned (err (invalid_dimensions f.metadata.width f.metadata.height (length f.bytes)))
unfolding checked
checked_wrong_size from to body f e h = ground (arith, format_eq_iff f.metadata.format from, e, h)

-- What a conversion answers: the frame in the new format, or the error of a wrong length.
abbrev Answers : (Frame → Converted) → PixelFormat → PixelFormat → Frame → Type 0
Answers convert from to f =
    (IsSized f
      → (from ≡ nv12 → f.metadata.height % 2 ≡ 0)
      → (r : Frame) × (convert f ≡ returned (ok r)) × IsConverted to f r)
    × (length f.bytes ≢ expected_len from f.metadata.width f.metadata.height
        → convert f
          ≡ returned (err (invalid_dimensions f.metadata.width f.metadata.height (length f.bytes))))

convert_between-Answers :
    (decode : List ℕ → Option (List ℕ × ℕ × ℕ)) (from to : PixelFormat)
    → IsDirect from to
    → (f : Frame) → f.metadata.format ≡ from
    → Answers (convert_between decode from to) from to f
unfolding convert_between yuyv_to_nv12 yuyv_to_rgb24 rgb24_to_nv12 nv12_to_rgb24
convert_between-Answers decode _ _ packed_to_planes f e = (
  λ sized even.
      checked-IsConverted yuyv nv12 _ f e sized
        (yuyv_planes-Fills f.metadata.width f.metadata.height sized.2),
  checked_wrong_size yuyv nv12 _ f e,
)
convert_between-Answers decode _ _ packed_to_pixels f e = (
  λ sized even.
      checked-IsConverted yuyv rgb24 _ f e sized
        (yuyv_pixels-Fills f.metadata.width f.metadata.height),
  checked_wrong_size yuyv rgb24 _ f e,
)
convert_between-Answers decode _ _ pixels_to_planes f e = (
  λ sized even.
      checked-IsConverted rgb24 nv12 _ f e sized
        (rgb_planes-Fills f.metadata.width f.metadata.height sized.2),
  checked_wrong_size rgb24 nv12 _ f e,
)
convert_between-Answers decode _ _ planes_to_pixels f e = (
  λ sized even.
      checked-IsConverted nv12 rgb24 _ f e sized
        (nv12_pixels-Fills f.metadata.width f.metadata.height sized.2 (even refl)),
  checked_wrong_size nv12 rgb24 _ f e,
)

convert_to-between :
    (decode : List ℕ → Option (List ℕ × ℕ × ℕ)) (from to : PixelFormat) (f : Frame)
    → IsDirect from to
    → f.metadata.format ≡ from
    → convert_to decode f to ≡ convert_between decode from to f
unfolding convert_to
convert_to-between decode _ _ f packed_to_planes e = rw e refl
convert_to-between decode _ _ f packed_to_pixels e = rw e refl
convert_to-between decode _ _ f pixels_to_planes e = rw e refl
convert_to-between decode _ _ f planes_to_pixels e = rw e refl

-- Between two formats other than MJPEG that have a conversion, a frame with columns whose number of
-- bytes fits its size and its format and is below 2^63 (and, from NV12, with an even height) is
-- converted: nothing panics, the result has the size, the time and the number of the frame, the format
-- asked for, and as many bytes as that format has at this size. At a number of bytes other than what the
-- code asks for, whose products wrap at 64 bits, the answer is the error that names the size and the
-- number.
pub convert_to_answers :
    (decode : List ℕ → Option (List ℕ × ℕ × ℕ)) (from to : PixelFormat) (f : Frame)
    → IsDirect from to
    → f.metadata.format ≡ from
    → (IsSized f
        → (from ≡ nv12 → f.metadata.height % 2 ≡ 0)
        → (r : Frame) × (convert_to decode f to ≡ returned (ok r)) × IsConverted to f r)
      × (length f.bytes ≢ expected_len from f.metadata.width f.metadata.height
          → convert_to decode f to
            ≡ returned
                (err (invalid_dimensions f.metadata.width f.metadata.height (length f.bytes))))
convert_to_answers decode from to f direct e =
    rw (convert_to-between decode from to f direct e)
      (convert_between-Answers decode from to direct f e)
