-- ===== src/Convert/Tests.antt =====
-- Tests of Convert.antt, and the witnesses of its results.
use autotargeting.Base.{
  arith, length, ℕ, ◌%◌, ◌≡◌, ◌≢◌, refl, Option, none, List, [], ◌∷◌, ◌++◌, slice, try_zip_mut,
  zip_mut, chunks_exact, chunks_from, ok, err,
}
use autotargeting.Frames.{yuyv, PixelFormat, nv12, rgb24, Frame}
use autotargeting.Convert.Defs.{
  returned, panicked, checked, expected_len, byte, rgb_to_y_u8, rgb_to_cb, rgb_to_cr,
  invalid_dimensions,
}
use autotargeting.Convert.Planes
use autotargeting.Convert.Yuyv.{yuyv_to_nv12}
use autotargeting.Convert.Luma.{evens, yuyv_to_nv12-evens}
use autotargeting.Convert.Dispatch.{convert_to, convert_between}
use autotargeting.Convert.Outcome.{IsSized, IsConverted, pixels_to_planes, convert_to_answers}

abbrev frame_of : PixelFormat → ℕ → ℕ → List ℕ → Frame
frame_of f w h bytes = record {
  bytes = bytes;
  metadata = record { width = w; height = h; format = f; captured_at = 5; seq = 7 };
}

abbrev no_decoder : List ℕ → Option (List ℕ × ℕ × ℕ)
no_decoder bytes = none

-- One red and one white row.
abbrev two_rows : Frame
two_rows = frame_of rgb24 2 2 (255 ∷ 0 ∷ 0 ∷ 255 ∷ 0 ∷ 0 ∷ 255 ∷ 255 ∷ 255 ∷ 255 ∷ 255 ∷ 255 ∷ [])

-- An odd height: there is no second row of chroma.
abbrev three_rows : Frame
three_rows = frame_of nv12 2 3 (10 ∷ 20 ∷ 30 ∷ 40 ∷ 50 ∷ 60 ∷ 128 ∷ 128 ∷ 128 ∷ [])

odd_height_panics : convert_to no_decoder three_rows rgb24 ≡ panicked
unfolding convert_to convert_between Planes.nv12_to_rgb24 checked Planes.nv12_pixels slice
    try_zip_mut Planes.enumerate chunks_exact chunks_from
odd_height_panics = refl

two_rows_planes :
    convert_to no_decoder two_rows nv12
    ≡ returned (ok (frame_of nv12 2 2 (77 ∷ 77 ∷ 255 ∷ 255 ∷ 106 ∷ 191 ∷ [])))
unfolding convert_to convert_between Planes.rgb24_to_nv12 checked Planes.rgb_planes try_zip_mut
    slice zip_mut chunks_exact chunks_from Planes.luma_row rgb_to_y_u8 Planes.chroma_row byte
    Planes.chroma_pairs Planes.block_chroma Planes.block rgb_to_cb rgb_to_cr
two_rows_planes = refl

convert_to_answers_example :
    (IsSized two_rows
      → (rgb24 ≡ nv12 → 2 % 2 ≡ 0)
      → (r : Frame) × (convert_to no_decoder two_rows nv12 ≡ returned (ok r))
        × IsConverted nv12 two_rows r)
    × (12 ≢ expected_len rgb24 2 2
        → convert_to no_decoder two_rows nv12 ≡ returned (err (invalid_dimensions 2 2 12)))
convert_to_answers_example = convert_to_answers no_decoder rgb24 nv12 two_rows pixels_to_planes refl

-- Two rows of two pixels.
abbrev packed : Frame
packed = frame_of yuyv 2 2 (10 ∷ 90 ∷ 20 ∷ 91 ∷ 30 ∷ 92 ∷ 40 ∷ 93 ∷ [])

yuyv_to_nv12-evens_example :
    (r : Frame) × (chroma : List ℕ) × (yuyv_to_nv12 packed ≡ returned (ok r))
    × (r.bytes ≡ evens (10 ∷ 90 ∷ 20 ∷ 91 ∷ 30 ∷ 92 ∷ 40 ∷ 93 ∷ []) ++ chroma)
    × (length (evens (10 ∷ 90 ∷ 20 ∷ 91 ∷ 30 ∷ 92 ∷ 40 ∷ 93 ∷ [])) ≡ 4)
yuyv_to_nv12-evens_example = yuyv_to_nv12-evens packed 1 refl refl (omega arith) refl (omega arith)

-- The product for a packed frame of 3037000500 x 3037000500 pixels wraps.
wrapped_len : expected_len yuyv 3_037_000_500 3_037_000_500 ≡ 290_948_384
wrapped_len = refl
