-- ===== src/Convert/Planes.antt =====
-- auto-targeting/crates/video-capture/src/convert.rs: between 24-bit RGB and the two planes of NV12.
use autotargeting.Base.{
  ℕ, zero, suc, ◌+◌, ◌-◌, ◌*◌, ◌/◌, ◌%◌, Option, some, List, [], ◌∷◌, ◌++◌, ◌==◌, ltb,
  if◌then◌else◌, length, set, and_then, map_option, slice, take, drop, chunks_exact, range_from,
  zip_mut, try_zip_mut, ℤ, ◌+ℤ◌, shr, clamp_u8,
}
use autotargeting.Frames.{nv12, rgb24, Frame}
use autotargeting.Convert.Defs.{
  Converted, checked, zeros, byte, centred, ycbcr_to_rgb_i32, rgb_to_y_u8, rgb_to_cb, rgb_to_cr,
}

-- The pixels of one pair of bytes of the Y plane, with the chroma at `k * 2`.
unfoldable pub nv12_pair : List ℕ → ℕ × List ℕ → List ℕ → List ℕ
nv12_pair uv_row (k, y2) out6 =
    let u = centred (byte uv_row (k * 2)) in
    let v = centred (byte uv_row (k * 2 + 1)) in
    let (r0, g0, b0) = ycbcr_to_rgb_i32 (byte y2 0) u v in
    let (r1, g1, b1) = ycbcr_to_rgb_i32 (byte y2 1) u v in r0 ∷ g0 ∷ b0 ∷ r1 ∷ g1 ∷ b1 ∷ []

-- `enumerate()`.
unfoldable pub enumerate {ℓ} : {A : Type ℓ} → ℕ → List A → List (ℕ × A)
enumerate i [] = []
enumerate i (x ∷ xs) = (i, x) ∷ enumerate (suc i) xs

unfoldable pub nv12_row : List ℕ → List ℕ → List ℕ → List ℕ
nv12_row uv_row y_row out_row =
    zip_mut 6 (nv12_pair uv_row) (enumerate 0 (chunks_exact 2 y_row)) out_row

unfoldable pub nv12_pixels : ℕ → ℕ → List ℕ → Option (List ℕ)
nv12_pixels w h src =
    let uv_off = w * h in
    and_then (slice src 0 (w * h)) (λ y_plane.
      try_zip_mut (w * 3)
        (λ (jy : ℕ × List ℕ) out_row.
          map_option (λ uv_row. nv12_row uv_row jy.1 out_row) (slice src (uv_off + jy.0 / 2 * w) w))
        (enumerate 0 (chunks_exact w y_plane)) (zeros (w * h * 3)))

unfoldable pub nv12_to_rgb24 : Frame → Converted
nv12_to_rgb24 = checked nv12 rgb24 nv12_pixels

-- The pixel at the column `x` of a row.
abbrev pixel : List ℕ → ℕ → List ℕ
pixel src x = take 3 (drop (x * 3) src)

unfoldable pub luma_row : List ℕ → List ℕ → List ℕ
luma_row src_row y_row =
    zip_mut 1 (λ px out. rgb_to_y_u8 (byte px 0) (byte px 1) (byte px 2) ∷ [])
      (chunks_exact 3 src_row) y_row

-- The raw sums of one 2x2 block.
unfoldable pub block : (List ℕ → ℤ) → List ℕ → List ℕ → ℕ → ℤ
block chroma src0 src1 x =
    chroma (pixel src0 x)
    +ℤ chroma (pixel src0 (x + 1))
    +ℤ chroma (pixel src1 x)
    +ℤ chroma (pixel src1 (x + 1))

-- `while x + 1 < end { … x += 2 }`, on fuel: every round takes two from what is left of the row.
-- The result is the row and the last `x`.
unfoldable pub chroma_pairs : (ℕ → ℕ × ℕ) → (fuel end x : ℕ) → List ℕ → List ℕ × ℕ
chroma_pairs uv zero end x row = (row, x)
chroma_pairs uv (suc fuel) end x row =
    let rest = chroma_pairs uv fuel end (x + 2) (set (set row x (uv x).0) (x + 1) (uv x).1) in
    if ltb (x + 1) end then rest else (row, x)

-- (cu/4) >> 8 is cu >> 10.
unfoldable pub block_chroma : List ℕ → List ℕ → ℕ → ℕ × ℕ
block_chroma src0 src1 x = (
  clamp_u8 (shr (block rgb_to_cb src0 src1 x) 10),
  clamp_u8 (shr (block rgb_to_cr src0 src1 x) 10),
)

unfoldable pub chroma_row : ℕ → List ℕ → List ℕ → List ℕ → List ℕ
chroma_row w src0 src1 uv_row =
    let (row, x) = chroma_pairs (block_chroma src0 src1) w w 0 uv_row in
    let cu = shr (rgb_to_cb (pixel src0 x) +ℤ rgb_to_cb (pixel src1 x)) 1 in
    if ltb x w then set row x (clamp_u8 (shr cu 8)) else row

-- The chroma of the last row of an odd height: as many pairs as the plane has room for.
unfoldable pub last_chroma_row : List ℕ → List ℕ → List ℕ
last_chroma_row src uv_row =
    let half = λ (chroma : List ℕ → ℤ) (x : ℕ).
      clamp_u8 (shr (shr (chroma (pixel src x) +ℤ chroma (pixel src (x + 1))) 1) 8) in
    (chroma_pairs (λ x. (half rgb_to_cb x, half rgb_to_cr x)) (length uv_row) (length uv_row) 0
      uv_row).0

unfoldable pub rgb_planes : ℕ → ℕ → List ℕ → Option (List ℕ)
rgb_planes w h src =
    let y_plane = zip_mut w luma_row (chunks_exact (w * 3) src) (zeros (w * h)) in
    let uv_plane = zeros (w * h * 3 / 2 - w * h) in
    let uv_rows = h / 2 in
    and_then
      (try_zip_mut w
        (λ row uv_row. and_then (slice src (2 * row * w * 3) (w * 3)) (λ src0.
          map_option (λ src1. chroma_row w src0 src1 uv_row)
            (slice src ((2 * row + 1) * w * 3) (w * 3))))
        (range_from 0 uv_rows) uv_plane)
      (λ written.
        if h % 2 == 1
        then map_option
            (λ last.
              y_plane
              ++ (take (uv_rows * w) written ++ last_chroma_row last (drop (uv_rows * w) written)))
            (slice src ((h - 1) * w * 3) (w * 3))
        else some (y_plane ++ written))

unfoldable pub rgb24_to_nv12 : Frame → Converted
rgb24_to_nv12 = checked rgb24 nv12 rgb_planes
