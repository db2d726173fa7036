-- ===== src/Convert/Luma.antt =====
-- The luma of packed frames in auto-targeting/crates/video-capture/src/convert.rs.
use native.Mathlib.Nat.{le-mul_of_pos_right}
use autotargeting.Base.{
  ℕ, zero, suc, ◌*◌, ◌%◌, ◌^◌, ◌≤◌, ◌<◌, ◌≡◌, refl, ap, sym, ◌∙◌, true, false, List, [], ◌∷◌, ◌++◌,
  ◌==◌, ltb, length, take, drop, length-take, length-drop, chunks_exact, chunks_from, zip_mut, ok,
  arith,
}
use autotargeting.Frames.{Frame, nv12, yuyv, format_eq_iff}
use autotargeting.Convert.Defs.{byte, zeros, returned, checked, reformat}
use autotargeting.Convert.Sizes.{
  expected_len-pixel_len, luma_plane, length-luma_plane, length-zeros, yuyv_planes_parts,
}
use autotargeting.Convert.Yuyv
use autotargeting.Convert.Yuyv.{yuyv_to_nv12}

-- The bytes at even places.
unfoldable pub evens : List ℕ → List ℕ
evens [] = []
evens (a ∷ []) = a ∷ []
evens (a ∷ b ∷ xs) = a ∷ evens xs

evens-split : (n : ℕ) (xs : List ℕ) → evens (take (2 * n) xs) ++ evens (drop (2 * n) xs) ≡ evens xs
unfolding evens
evens-split zero xs = refl
evens-split (suc n) [] = let e : 2 * suc n ≡ suc (suc (2 * n)) = omega arith in rw e refl
evens-split (suc n) (a ∷ []) = let e : 2 * suc n ≡ suc (suc (2 * n)) = omega arith in rw e refl
evens-split (suc n) (a ∷ b ∷ xs) =
    let e : 2 * suc n ≡ suc (suc (2 * n)) = omega arith in
    rw e (ap (λ (l : List ℕ). a ∷ l) (evens-split n xs))

abbrev luma_pair : List ℕ → List ℕ → List ℕ
luma_pair pair out2 = byte pair 0 ∷ byte pair 2 ∷ []

quad_step :
    (fuel a b c d : ℕ) (xs : List ℕ)
    → chunks_from (suc fuel) 4 (a ∷ b ∷ c ∷ d ∷ xs) ≡ (a ∷ b ∷ c ∷ d ∷ []) ∷ chunks_from fuel 4 xs
unfolding chunks_from
quad_step fuel a b c d xs =
    let e : ltb (suc (suc (suc (suc (length xs))))) 4 ≡ false = ground arith in rw e refl

pair_step :
    (a b c d x y : ℕ) (cs : List (List ℕ)) (out : List ℕ)
    → zip_mut 2 luma_pair ((a ∷ b ∷ c ∷ d ∷ []) ∷ cs) (x ∷ y ∷ out)
      ≡ a ∷ c ∷ zip_mut 2 luma_pair cs out
unfolding zip_mut byte
pair_step a b c d x y cs out =
    let e : ltb (suc (suc (length out))) 2 ≡ false = ground arith in rw e refl

none_step : (fuel : ℕ) → zip_mut 2 luma_pair (chunks_from fuel 4 []) [] ≡ []
unfolding zip_mut chunks_from
none_step zero = refl
none_step (suc fuel) = refl

zip_mut-evens :
    (k fuel : ℕ) (row out : List ℕ)
    → k ≤ fuel
    → length row ≡ 4 * k
    → length out ≡ 2 * k
    → zip_mut 2 luma_pair (chunks_from fuel 4 row) out ≡ evens row
unfolding evens
zip_mut-evens zero zero [] [] h p q = none_step zero
zip_mut-evens zero (suc fuel) [] [] h p q = none_step (suc fuel)
zip_mut-evens zero fuel (a ∷ row) out h p q = absurd (omega arith)
zip_mut-evens zero fuel row (x ∷ out) h p q = absurd (omega arith)
zip_mut-evens (suc k) (suc fuel) (a ∷ b ∷ c ∷ d ∷ row) (x ∷ y ∷ out) h p q =
    rw (quad_step fuel a b c d row, pair_step a b c d x y (chunks_from fuel 4 row) out)
      (ap (λ (l : List ℕ). a ∷ c ∷ l)
        (zip_mut-evens k fuel row out (omega arith) (omega arith) (omega arith)))
zip_mut-evens (suc k) zero row out h p q = absurd (omega arith)
zip_mut-evens (suc k) fuel [] out h p q = absurd (omega arith)
zip_mut-evens (suc k) fuel (a ∷ []) out h p q = absurd (omega arith)
zip_mut-evens (suc k) fuel (a ∷ b ∷ []) out h p q = absurd (omega arith)
zip_mut-evens (suc k) fuel (a ∷ b ∷ c ∷ []) out h p q = absurd (omega arith)
zip_mut-evens (suc k) fuel row [] h p q = absurd (omega arith)
zip_mut-evens (suc k) fuel row (x ∷ []) h p q = absurd (omega arith)

luma_row-evens :
    (k : ℕ) (row out : List ℕ)
    → length row ≡ 4 * k
    → length out ≡ 2 * k
    → Yuyv.luma_row (2 * k) row out ≡ evens row
unfolding Yuyv.luma_row chunks_exact
luma_row-evens k row out p q =
    let e : (2 * k % 2 == 1) ≡ false = ground arith in
    rw e (zip_mut-evens k (length row) row out (omega arith) p q)

module _ {A : Type 0} (n : ℕ) where
  chunk_step :
      (fuel : ℕ) (xs : List A)
      → n ≤ length xs
      → chunks_from (suc fuel) n xs ≡ take n xs ∷ chunks_from fuel n (drop n xs)
  unfolding chunks_from
  chunk_step fuel xs h = let e : ltb (length xs) n ≡ false = ground arith in rw e refl

  zip_step :
      (f : List A → List A → List A) (s : List A) (ss : List (List A)) (out : List A)
      → n ≤ length out
      → zip_mut n f (s ∷ ss) out ≡ f s (take n out) ++ zip_mut n f ss (drop n out)
  unfolding zip_mut
  zip_step f s ss out h = let e : ltb (length out) n ≡ false = ground arith in rw e refl

  zip_none : (f : List A → List A → List A) (ss : List (List A)) → 0 < n → zip_mut n f ss [] ≡ []
  unfolding zip_mut
  zip_none f [] h = refl
  zip_none f (s ∷ ss) h = let e : ltb 0 n ≡ true = ground arith in rw e refl

evens_none : evens [] ≡ []
unfolding evens
evens_none = refl

split_at : (n m : ℕ) (xs : List ℕ) → n ≡ 2 * m → evens (take n xs) ++ evens (drop n xs) ≡ evens xs
split_at n m xs e = rw e (evens-split m xs)

plane-evens :
    (h fuel k : ℕ) (src out : List ℕ)
    → 0 < k
    → h ≤ fuel
    → length src ≡ h * (4 * k)
    → length out ≡ h * (2 * k)
    → zip_mut (2 * k) (Yuyv.luma_row (2 * k)) (chunks_from fuel (2 * k * 2) src) out ≡ evens src
plane-evens zero fuel k [] [] pos le p q =
    zip_none (2 * k) (Yuyv.luma_row (2 * k)) (chunks_from fuel (2 * k * 2) []) (omega arith)
    ∙ sym evens_none
plane-evens zero fuel k (x ∷ src) out pos le p q = absurd (omega arith)
plane-evens zero fuel k src (x ∷ out) pos le p q = absurd (omega arith)
plane-evens (suc h) zero k src out pos le p q = absurd (omega arith)
plane-evens (suc h) (suc fuel) k src out pos le p q =
    let n = 2 * k * 2 in
    rw
      (
        chunk_step n fuel src (omega arith),
        zip_step (2 * k) (Yuyv.luma_row (2 * k)) (take n src) (chunks_from fuel n (drop n src)) out
            (omega arith),
        luma_row-evens k (take n src) (take (2 * k) out)
            (omega (arith, length-take n src (omega arith)))
            (length-take (2 * k) out (omega arith)),
        plane-evens h fuel k (drop n src) (drop (2 * k) out) pos (omega arith)
            (omega (arith, length-drop n src)) (omega (arith, length-drop (2 * k) out)),
      )
      (split_at n (2 * k) src (omega arith))

luma_plane-evens :
    (k h : ℕ) (src : List ℕ)
    → 0 < k
    → length src ≡ 2 * k * h * 2
    → luma_plane (2 * k) h src ≡ evens src
unfolding chunks_exact
luma_plane-evens k h src pos p =
    plane-evens h (length src) k src (zeros (2 * k * h)) pos
      (omega (arith, le-mul_of_pos_right h pos)) (omega arith)
      (omega (arith, length-zeros (2 * k * h)))

-- A packed frame of the right length (below 2^63, as that of every `Vec`), of an even width that is not
-- 0, becomes a frame whose bytes begin with the even bytes of the packed one, one for each pixel.
pub yuyv_to_nv12-evens :
    (f : Frame) (k : ℕ)
    → f.metadata.format ≡ yuyv
    → f.metadata.width ≡ 2 * k
    → 0 < k
    → length f.bytes ≡ f.metadata.width * f.metadata.height * 2
    → length f.bytes < 2 ^ 63
    → (r : Frame) × (chroma : List ℕ) × (yuyv_to_nv12 f ≡ returned (ok r))
      × (r.bytes ≡ evens f.bytes ++ chroma)
      × (length (evens f.bytes) ≡ f.metadata.width * f.metadata.height)
unfolding yuyv_to_nv12 checked
yuyv_to_nv12-evens f k e even pos len small =
    let m = f.metadata in
    let w = m.width in
    let parts = yuyv_planes_parts w m.height f.bytes (omega arith) len in
    let luma : luma_plane w m.height f.bytes ≡ evens f.bytes =
      rw even
        (luma_plane-evens k m.height f.bytes pos (len ∙ ap (λ (x : ℕ). x * m.height * 2) even)) in
    (
      record { bytes = luma_plane w m.height f.bytes ++ parts.0; metadata = reformat nv12 m },
      parts.0,
      ground (
        arith,
        format_eq_iff m.format yuyv,
        e,
        even,
        pos,
        len,
        parts.1,
        expected_len-pixel_len yuyv w m.height (omega (arith, len, small)),
      ),
      ap (λ (y : List ℕ). y ++ parts.0) luma,
      ap (λ (y : List ℕ). length y) (sym luma) ∙ length-luma_plane w m.height f.bytes,
    )
