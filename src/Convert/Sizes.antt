-- ===== src/Convert/Sizes.antt =====
-- The sizes of what the loops of auto-targeting/crates/video-capture/src/convert.rs write, and that
-- their slices are in bounds.
use native.Mathlib.Nat.{div-mul-le_self, mul-div_cancel, mul-le-mul, le_refl}
use native.Mathlib.Decide.{dec_lt}
use autotargeting.Base.{
  ℕ, zero, suc, ◌+◌, ◌-◌, ◌*◌, ◌/◌, ◌%◌, ◌^◌, ◌≤◌, ◌<◌, ◌≡◌, inl, inr, refl, ap, Option, some, List,
  [], ◌∷◌, ◌++◌, ◌==◌, ltb, length, length-set, length-append, length-replicate, All, get_elem?,
  set, and_then, map_option, slice, take, drop, length-take, length-drop, length-slice,
  chunks_exact, chunks_exact_le, range_from, All-range_from, zip_mut, try_zip_mut, length-zip_mut,
  try_zip_mut_fills, map-slice_fills, mul-below, Option-cases, Bool-cases, remainder, ◌∙◌, arith,
}
use autotargeting.Convert.Defs.{expected_len, zeros, byte, byte_or_neutral, rgb_to_y_u8}
use autotargeting.Frames.{PixelFormat, nv12, rgb24, yuyv, mjpeg}
use autotargeting.Convert.Yuyv
use autotargeting.Convert.Planes

pub length-zeros : (n : ℕ) → length (zeros n) ≡ n
length-zeros n = length-replicate n 0

-- `h / 2` rows of chroma fit into the plane.
pub half_rows_le : (w h : ℕ) → h / 2 * w ≤ w * h * 3 / 2 - w * h
half_rows_le w h = omega (arith, div-mul-le_self h 2, mul-le-mul (div-mul-le_self h 2) (le_refl w))

-- At an even height the two planes are as long as the frame.
even_rows : (w h : ℕ) → h % 2 ≡ 0 → w * h * 3 / 2 ≡ w * h + h / 2 * w
even_rows w h even =
    let half : h ≡ 2 * (h / 2) = omega arith in omega (arith, ap (λ (t : ℕ). w * t) half)

-- The bytes of a frame with `w * h` pixels.
abbrev pub pixel_len : PixelFormat → ℕ → ℕ → ℕ
pixel_len nv12 w h = w * h * 3 / 2
pixel_len yuyv w h = w * h * 2
pixel_len rgb24 w h = w * h * 3
pixel_len mjpeg w h = 0

-- Where the bytes of the frame are fewer than 2^63, as in every `Vec`, the code asks for as many.
pub expected_len-pixel_len :
    (f : PixelFormat) (w h : ℕ) → pixel_len f w h < 2 ^ 63 → expected_len f w h ≡ pixel_len f w h
expected_len-pixel_len nv12 w h small = ground arith
expected_len-pixel_len yuyv w h small = ground arith
expected_len-pixel_len rgb24 w h small = ground arith
expected_len-pixel_len mjpeg w h small = refl

-- What a loop owes its caller: bytes for every source of the right size, in the right number.
abbrev pub Fills : PixelFormat → PixelFormat → (ℕ → ℕ → List ℕ → Option (List ℕ)) → ℕ → ℕ → Type 0
Fills from to body w h =
    (src : List ℕ)
    → length src ≡ pixel_len from w h
    → (bytes : List ℕ) × (body w h src ≡ some bytes) × (length bytes ≡ pixel_len to w h)

length-yuyv_luma :
    (w : ℕ) (src_row row : List ℕ) → length row ≡ w → length (Yuyv.luma_row w src_row row) ≡ w
unfolding Yuyv.luma_row
length-yuyv_luma w src_row row h =
    let even =
      zip_mut 2 (λ pair out2. byte pair 0 ∷ byte pair 2 ∷ []) (chunks_exact 4 src_row) row in
    let here =
      length-zip_mut 2 (λ pair out2. byte pair 0 ∷ byte pair 2 ∷ []) (λ s d e. refl)
        (chunks_exact 4 src_row) row in
    elim (Option-cases (get_elem? (remainder 4 src_row) 0)) [
      | inl q ↦ rw q (ground (arith, here))
      | inr (y, q) ↦ rw q (ground (arith, here, length-set even (length even - 1) y))
    ]

length-yuyv_chroma :
    (w : ℕ) (src_row row : List ℕ) → length row ≡ w → length (Yuyv.chroma_row w src_row row) ≡ w
unfolding Yuyv.chroma_row
length-yuyv_chroma w src_row row h = ground (
  arith,
  length-zip_mut 2 (λ pair out2. byte pair 1 ∷ byte pair 3 ∷ []) (λ s d e. refl)
      (chunks_exact 4 src_row) row,
  length-set (zip_mut 2 (λ pair out2. byte pair 1 ∷ byte pair 3 ∷ []) (chunks_exact 4 src_row) row)
      (w - 1) (byte_or_neutral (remainder 4 src_row) 1),
)

-- The loop over the rows of chroma of a packed frame.
yuyv_chroma_ends :
    (w h : ℕ) (src rows : List ℕ)
    → 0 < w
    → length src ≡ w * h * 2
    → length rows ≡ h / 2 * w
    → (written : List ℕ) × (try_zip_mut w
          (λ row_idx uv_row.
            map_option
              (λ src_row. Yuyv.chroma_row w src_row uv_row)
              (slice src (2 * row_idx * w * 2) (w * 2)))
          (range_from 0 (length rows / w))
          rows
        ≡ some written)
      × (length written ≡ length rows)
yuyv_chroma_ends w h src rows pos hs hr =
    try_zip_mut_fills (λ (i : ℕ). i < h / 2) w
      (λ (row_idx : ℕ) (uv_row : List ℕ).
        map_option (λ src_row. Yuyv.chroma_row w src_row uv_row)
          (slice src (2 * row_idx * w * 2) (w * 2)))
      (λ i d p e.
        map-slice_fills (λ src_row. Yuyv.chroma_row w src_row d) src (2 * i * w * 2) (w * 2) w
          (λ row. length-yuyv_chroma w row d e)
          (omega (arith, mul-below (2 * i + 1) h w (omega arith))))
      (range_from 0 (length rows / w)) rows
      (All-range_from (h / 2) 0 (length rows / w)
        (rw (hr, mul-div_cancel (h / 2) pos) (omega arith)))

-- The planes together, with the part of the chroma that the loop does not write.
length-planes :
    (w h k : ℕ) (y uv written : List ℕ)
    → length y ≡ w * h
    → length uv ≡ w * h * 3 / 2 - w * h
    → k ≤ length uv
    → length written ≡ k
    → length (y ++ (written ++ drop k uv)) ≡ w * h * 3 / 2
length-planes w h k y uv written hy hu hk hw = omega (
  arith,
  length-append y (written ++ drop k uv),
  length-append written (drop k uv),
  length-drop k uv,
)

-- The luma of a packed frame, and whatever chroma comes behind it.
abbrev pub luma_plane : ℕ → ℕ → List ℕ → List ℕ
luma_plane w h src = zip_mut w (Yuyv.luma_row w) (chunks_exact (w * 2) src) (zeros (w * h))

pub length-luma_plane : (w h : ℕ) (src : List ℕ) → length (luma_plane w h src) ≡ w * h
length-luma_plane w h src =
    length-zip_mut w (Yuyv.luma_row w) (length-yuyv_luma w) (chunks_exact (w * 2) src)
      (zeros (w * h))
    ∙ length-zeros (w * h)

pub yuyv_planes_parts :
    (w h : ℕ) (src : List ℕ)
    → 0 < w
    → length src ≡ w * h * 2
    → (chroma : List ℕ) × (Yuyv.yuyv_planes w h src ≡ some (luma_plane w h src ++ chroma))
      × (length (luma_plane w h src ++ chroma) ≡ w * h * 3 / 2)
unfolding Yuyv.yuyv_planes
yuyv_planes_parts w h src pos hs =
    let uv = zeros (w * h * 3 / 2 - w * h) in
    let y = luma_plane w h src in
    let hu = length-zeros (w * h * 3 / 2 - w * h) in
    let rows = length-slice uv 0 (h / 2 * w) (omega (arith, hu, half_rows_le w h)) in
    let ends = yuyv_chroma_ends w h src rows.0 pos hs rows.2 in
    (
      ends.0 ++ drop (h / 2 * w) uv,
      ground (arith, rows.1, ends.1),
      length-planes w h (h / 2 * w) y uv ends.0 (length-luma_plane w h src) hu
          (rw hu (half_rows_le w h)) (ends.2 ∙ rows.2),
    )

pub yuyv_planes-Fills : (w h : ℕ) → 0 < w → Fills yuyv nv12 Yuyv.yuyv_planes w h
yuyv_planes-Fills w h pos src hs =
    let parts = yuyv_planes_parts w h src pos hs in
    (luma_plane w h src ++ parts.0, parts.1, parts.2)

rgb_pair_lem : (pair out6 : List ℕ) → length (Yuyv.rgb_pair pair out6) ≡ 6
unfolding Yuyv.rgb_pair
rgb_pair_lem pair out6 = refl

rgb_row-length :
    (w : ℕ) (src_row row : List ℕ)
    → length row ≡ w * 3
    → length (Yuyv.rgb_row w src_row row) ≡ w * 3
unfolding Yuyv.rgb_row
rgb_row-length w src_row row h =
    let pixels = zip_mut 6 Yuyv.rgb_pair (chunks_exact 4 src_row) row in
    let here =
      length-zip_mut 6 Yuyv.rgb_pair (λ s d e. rgb_pair_lem s d) (chunks_exact 4 src_row) row in
    elim (Bool-cases (w % 2 == 1)) [
      | inl e ↦ rw e (simp length-set (omega (arith, here)))
      | inr e ↦ rw e (omega (arith, here))
    ]

pub yuyv_pixels-Fills : (w h : ℕ) → Fills yuyv rgb24 Yuyv.yuyv_pixels w h
unfolding Yuyv.yuyv_pixels
yuyv_pixels-Fills w h src hs = (
  zip_mut (w * 3) (Yuyv.rgb_row w) (chunks_exact (w * 2) src) (zeros (w * h * 3)),
  refl,
  length-zip_mut (w * 3) (Yuyv.rgb_row w) (rgb_row-length w) (chunks_exact (w * 2) src)
        (zeros (w * h * 3))
      ∙ length-zeros (w * h * 3),
)

nv12_pair_lem :
    (uv_row out6 : List ℕ) (k2 : ℕ × List ℕ) → length (Planes.nv12_pair uv_row k2 out6) ≡ 6
unfolding Planes.nv12_pair
nv12_pair_lem uv_row out6 (k, y2) = refl

length-nv12_row :
    (uv_row y_row row : List ℕ) → length (Planes.nv12_row uv_row y_row row) ≡ length row
unfolding Planes.nv12_row
length-nv12_row uv_row y_row row =
    length-zip_mut 6 (Planes.nv12_pair uv_row) (λ k2 d e. nv12_pair_lem uv_row d k2)
      (Planes.enumerate 0 (chunks_exact 2 y_row)) row

All-enumerate :
    {A : Type 0} (n i : ℕ) (xs : List A)
    → i + length xs ≤ n
    → All (λ (p : ℕ × A). p.0 < n) (Planes.enumerate i xs)
unfolding Planes.enumerate
All-enumerate n i [] h = tt
All-enumerate n i (x ∷ xs) h = (omega arith, All-enumerate n (suc i) xs (omega arith))

-- No more chunks than rows.
chunks_below : (w h : ℕ) (xs : List ℕ) → 0 < w → length xs ≡ w * h → length (chunks_exact w xs) ≤ h
chunks_below w h xs pos e = elim (dec_lt h (length (chunks_exact w xs))) [
  | yes p ↦
      absurd (omega (arith, mul-below h (length (chunks_exact w xs)) w p, chunks_exact_le w xs))
  | no q ↦ omega arith
]

pub nv12_pixels-Fills : (w h : ℕ) → 0 < w → h % 2 ≡ 0 → Fills nv12 rgb24 Planes.nv12_pixels w h
unfolding Planes.nv12_pixels
nv12_pixels-Fills w h pos even src hs =
    let y = length-slice src 0 (w * h) (omega arith) in
    let ends =
      try_zip_mut_fills (λ (jy : ℕ × List ℕ). jy.0 < h) (w * 3)
        (λ (jy : ℕ × List ℕ) out_row.
          map_option (λ uv_row. Planes.nv12_row uv_row jy.1 out_row)
            (slice src (w * h + jy.0 / 2 * w) w))
        (λ jy d p e.
          map-slice_fills (λ uv_row. Planes.nv12_row uv_row jy.1 d) src (w * h + jy.0 / 2 * w) w
            (w * 3) (λ row. length-nv12_row row jy.1 d ∙ e)
            (omega (arith, even_rows w h even, mul-below (jy.0 / 2) (h / 2) w (omega arith))))
        (Planes.enumerate 0 (chunks_exact w y.0)) (zeros (w * h * 3))
        (All-enumerate h 0 (chunks_exact w y.0) (omega (arith, chunks_below w h y.0 pos y.2))) in
    (ends.0, ground (arith, y.1, ends.1), ends.2 ∙ length-zeros (w * h * 3))

chroma_pairs_lem :
    (uv : ℕ → ℕ × ℕ) (fuel end x : ℕ) (row : List ℕ)
    → length (Planes.chroma_pairs uv fuel end x row).0 ≡ length row
unfolding Planes.chroma_pairs
chroma_pairs_lem uv zero end x row = refl
chroma_pairs_lem uv (suc fuel) end x row =
    let next = set (set row x (uv x).0) (x + 1) (uv x).1 in
    ground (
      arith,
      chroma_pairs_lem uv fuel end (x + 2) next,
      length-set (set row x (uv x).0) (x + 1) (uv x).1,
      length-set row x (uv x).0,
    )

length-chroma_row :
    (w : ℕ) (src0 src1 row : List ℕ) → length (Planes.chroma_row w src0 src1 row) ≡ length row
unfolding Planes.chroma_row
length-chroma_row w src0 src1 row =
    let here = chroma_pairs_lem (Planes.block_chroma src0 src1) w w 0 row in
    let (done, x) : List ℕ × ℕ = Planes.chroma_pairs (Planes.block_chroma src0 src1) w w 0 row in
    elim (Bool-cases (ltb x w)) [ inl e ↦ rw e (simp length-set here) | inr e ↦ rw e here ]

length-last_chroma_row : (src row : List ℕ) → length (Planes.last_chroma_row src row) ≡ length row
unfolding Planes.last_chroma_row
length-last_chroma_row src row = chroma_pairs_lem _ (length row) (length row) 0 row

length-luma : (src_row row : List ℕ) → length (Planes.luma_row src_row row) ≡ length row
unfolding Planes.luma_row
length-luma src_row row =
    length-zip_mut 1 (λ px out. rgb_to_y_u8 (byte px 0) (byte px 1) (byte px 2) ∷ [])
      (λ s d e. refl) (chunks_exact 3 src_row) row

abbrev rgb_chroma : ℕ → List ℕ → ℕ → List ℕ → Option (List ℕ)
rgb_chroma w src row uv_row = and_then (slice src (2 * row * w * 3) (w * 3)) (λ src0.
    map_option (λ src1. Planes.chroma_row w src0 src1 uv_row)
      (slice src ((2 * row + 1) * w * 3) (w * 3)))

rgb_chroma_fills :
    (w h row : ℕ) (src d : List ℕ)
    → length src ≡ w * h * 3
    → row < h / 2
    → length d ≡ w
    → (r : List ℕ) × (rgb_chroma w src row d ≡ some r) × (length r ≡ w)
rgb_chroma_fills w h row src d hs p e =
    let up = mul-below (2 * row + 1) h w (omega arith) in
    let src0 = length-slice src (2 * row * w * 3) (w * 3) (omega (arith, up)) in
    let rest =
      map-slice_fills (λ src1. Planes.chroma_row w src0.0 src1 d) src ((2 * row + 1) * w * 3)
        (w * 3) w (λ src1. length-chroma_row w src0.0 src1 d ∙ e) (omega (arith, up)) in
    (rest.0, ground (arith, src0.1, rest.1), rest.2)

length-taken :
    (k : ℕ) (xs last : List ℕ)
    → k ≤ length xs
    → length last ≡ length (drop k xs)
    → length (take k xs ++ last) ≡ length xs
length-taken k xs last h e =
    omega (arith, length-append (take k xs) last, length-take k xs h, length-drop k xs)

pub rgb_planes-Fills : (w h : ℕ) → 0 < w → Fills rgb24 nv12 Planes.rgb_planes w h
unfolding Planes.rgb_planes
rgb_planes-Fills w h pos src hs =
    let y = zip_mut w Planes.luma_row (chunks_exact (w * 3) src) (zeros (w * h)) in
    let hy : length y ≡ w * h =
      length-zip_mut w Planes.luma_row (λ s d e. length-luma s d ∙ e) (chunks_exact (w * 3) src)
        (zeros (w * h))
      ∙ length-zeros (w * h) in
    let ends =
      try_zip_mut_fills (λ (i : ℕ). i < h / 2) w (rgb_chroma w src)
        (λ i d p e. rgb_chroma_fills w h i src d hs p e) (range_from 0 (h / 2))
        (zeros (w * h * 3 / 2 - w * h)) (All-range_from (h / 2) 0 (h / 2) (omega arith)) in
    let hu : length ends.0 ≡ w * h * 3 / 2 - w * h =
      ends.2 ∙ length-zeros (w * h * 3 / 2 - w * h) in
    elim (Bool-cases (h % 2 == 1)) [
      | inr e ↦ (y ++ ends.0, ground (arith, ends.1), omega (arith, length-append y ends.0, hy, hu))
      | inl e ↦
          let last =
            length-slice src ((h - 1) * w * 3) (w * 3)
              (omega (arith, mul-below (h - 1) h w (ground arith))) in
          let tail = Planes.last_chroma_row last.0 (drop (h / 2 * w) ends.0) in
          let chroma = take (h / 2 * w) ends.0 ++ tail in
          (
            y ++ chroma,
            ground (arith, ends.1, last.1),
            omega (
              arith,
              length-append y chroma,
              hy,
              hu,
              length-taken (h / 2 * w) ends.0 tail (omega (arith, hu, half_rows_le w h))
                  (length-last_chroma_row last.0 (drop (h / 2 * w) ends.0)),
            ),
          )
    ]
