-- ===== src/Convert/Yuyv.antt =====
-- auto-targeting/crates/video-capture/src/convert.rs: frames of the camera, packed YUV 4:2:2.
use autotargeting.Base.{
  ℕ, ◌+◌, ◌-◌, ◌*◌, ◌/◌, ◌%◌, Option, none, some, List, [], ◌∷◌, ◌++◌, ◌==◌, if◌then◌else◌, length,
  get_elem?, set, and_then, map_option, slice, drop, remainder, chunks_exact, range_from, zip_mut,
  try_zip_mut,
}
use autotargeting.Frames.{nv12, yuyv, rgb24, Frame}
use autotargeting.Convert.Defs.{
  Converted, checked, zeros, byte, byte_or_neutral, centred, ycbcr_to_rgb_i32,
}

-- One row of the Y plane: the even bytes of `src_row`, with the single tail of an odd width.
unfoldable pub luma_row : ℕ → List ℕ → List ℕ → List ℕ
luma_row w src_row y_row =
    let row =
      zip_mut 2 (λ pair out2. byte pair 0 ∷ byte pair 2 ∷ []) (chunks_exact 4 src_row) y_row in
    if w % 2 == 1
    then elim (get_elem? (remainder 4 src_row) 0) [
      | none ↦ row
      | some y ↦ set row (length row - 1) y
    ]
    else row

-- One row of the UV plane, from an even row of the frame. At an odd width the last slice holds the
-- one byte of U.
unfoldable pub chroma_row : ℕ → List ℕ → List ℕ → List ℕ
chroma_row w src_row uv_row =
    let row =
      zip_mut 2 (λ pair out2. byte pair 1 ∷ byte pair 3 ∷ []) (chunks_exact 4 src_row) uv_row in
    if w % 2 == 1 then set row (w - 1) (byte_or_neutral (remainder 4 src_row) 1) else row

unfoldable pub yuyv_planes : ℕ → ℕ → List ℕ → Option (List ℕ)
yuyv_planes w h src =
    let y_plane = zip_mut w (luma_row w) (chunks_exact (w * 2) src) (zeros (w * h)) in
    let uv_plane = zeros (w * h * 3 / 2 - w * h) in
    let uv_rows = h / 2 * w in
    and_then (slice uv_plane 0 uv_rows) (λ rows.
      map_option (λ written. y_plane ++ (written ++ drop uv_rows uv_plane))
        (try_zip_mut w
          (λ row_idx uv_row.
            map_option (λ src_row. chroma_row w src_row uv_row)
              (slice src (2 * row_idx * w * 2) (w * 2)))
          (range_from 0 (length rows / w)) rows))

unfoldable pub yuyv_to_nv12 : Frame → Converted
yuyv_to_nv12 = checked yuyv nv12 yuyv_planes

-- Two pixels with one pair of chroma.
unfoldable pub rgb_pair : List ℕ → List ℕ → List ℕ
rgb_pair pair out6 =
    let u = centred (byte pair 1) in
    let v = centred (byte pair 3) in
    let (r0, g0, b0) = ycbcr_to_rgb_i32 (byte pair 0) u v in
    let (r1, g1, b1) = ycbcr_to_rgb_i32 (byte pair 2) u v in r0 ∷ g0 ∷ b0 ∷ r1 ∷ g1 ∷ b1 ∷ []

unfoldable pub rgb_row : ℕ → List ℕ → List ℕ → List ℕ
rgb_row w src_row dst_row =
    let row = zip_mut 6 rgb_pair (chunks_exact 4 src_row) dst_row in
    let tail = remainder 4 src_row in
    let u = centred (byte_or_neutral tail 1) in
    let v = centred (byte_or_neutral tail 3) in
    let (r, g, b) = ycbcr_to_rgb_i32 (byte_or_neutral tail 0) u v in
    let last = (w - 1) * 3 in
    if w % 2 == 1 then set (set (set row last r) (last + 1) g) (last + 2) b else row

unfoldable pub yuyv_pixels : ℕ → ℕ → List ℕ → Option (List ℕ)
yuyv_pixels w h src =
    some (zip_mut (w * 3) (rgb_row w) (chunks_exact (w * 2) src) (zeros (w * h * 3)))

unfoldable pub yuyv_to_rgb24 : Frame → Converted
yuyv_to_rgb24 = checked yuyv rgb24 yuyv_pixels
