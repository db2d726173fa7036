-- ===== src/Yolo/Frame.antt =====
-- The detections that auto-targeting/crates/yolov8/src/lib.rs returns, in the frame.
use autotargeting.Base.{
  ℕ, zero, suc, ◌+◌, ◌-◌, ◌*◌, ◌^◌, ◌<◌, ◌≤◌, ◌≡◌, ◌⊎◌, inl, inr, refl, max, Bool, true, false,
  some, List, [], ◌∷◌, length, ◌==◌, Bool-cases, Option-cases, All, length-slice, chunks_exact,
  mul-below, arith,
}
use native.Mathlib.Decide.{dec_lt}
use autotargeting.Floats.{Float, clamp}
use autotargeting.Detections.{BoundingBox, Detection}
use autotargeting.Yolo.Candidates.{Candidate, candidate_at, candidates_from, best_classes, element}
use autotargeting.Yolo.Postprocess.{
  LetterboxParams, insert_candidate, sort_candidates, suppress_after, keep_candidates, unflagged,
  pixel_within, box_of, detections, survivors, postprocess,
}

module _ {F : Type 0} ⦃f : Float F⦄ where
  insert_candidate-All :
      (P : Candidate F → Type 0) (c : Candidate F) (ds : List (Candidate F))
      → P c
      → All P ds
      → All P (insert_candidate c ds)
  unfolding insert_candidate
  insert_candidate-All P c [] p h = (p, tt)
  insert_candidate-All P c (d ∷ ds) p h = elim (Bool-cases (f.lt d.confidence c.confidence)) [
    | inl e ↦ rw e (p, h)
    | inr e ↦ rw e (h.0, insert_candidate-All P c ds p h.1)
  ]

  sort_candidates-All :
      (P : Candidate F → Type 0) (sorted cs : List (Candidate F))
      → All P sorted
      → All P cs
      → All P (sort_candidates sorted cs)
  unfolding sort_candidates
  sort_candidates-All P sorted [] h all = h
  sort_candidates-All P sorted (c ∷ cs) h all =
      sort_candidates-All P (insert_candidate c sorted) cs (insert_candidate-All P c sorted all.0 h)
        all.1

  suppress_after-All :
      (P : Candidate F → Type 0) (threshold : F) (c : Candidate F) (ds : List (Candidate F × Bool))
      → All (λ d. P d.0) ds
      → All (λ d. P d.0) (suppress_after threshold c ds)
  unfolding suppress_after
  suppress_after-All P threshold c [] h = tt
  suppress_after-All P threshold c ((d, s) ∷ ds) h = (h.0, suppress_after-All P threshold c ds h.1)

  keep_candidates-All :
      (P : Candidate F → Type 0) (n : ℕ) (threshold : F) (ds : List (Candidate F × Bool))
      → All (λ d. P d.0) ds
      → All P (keep_candidates n threshold ds)
  unfolding keep_candidates
  keep_candidates-All P zero threshold ds h = tt
  keep_candidates-All P (suc n) threshold [] h = tt
  keep_candidates-All P (suc n) threshold ((c, true) ∷ ds) h =
      keep_candidates-All P n threshold ds h.1
  keep_candidates-All P (suc n) threshold ((c, false) ∷ ds) h = (
    h.0,
    keep_candidates-All P n threshold (suppress_after threshold c ds)
        (suppress_after-All P threshold c ds h.1),
  )

  unflagged-All :
      (P : Candidate F → Type 0) (cs : List (Candidate F))
      → All P cs
      → All (λ d. P d.0) (unflagged cs)
  unflagged-All P [] h = tt
  unflagged-All P (c ∷ cs) h = (h.0, unflagged-All P cs h.1)

  survivors-All :
      (P : Candidate F → Type 0) (threshold : F) (cs : List (Candidate F))
      → All P cs
      → All P (survivors threshold cs)
  unfolding survivors
  survivors-All P threshold cs h =
      let sorted = sort_candidates [] cs in
      keep_candidates-All P (length sorted) threshold (unflagged sorted)
        (unflagged-All P sorted (sort_candidates-All P [] cs tt h))

  -- A candidate: its score is not below the threshold, its box is neither without a centre nor empty.
  abbrev IsSound : F → Candidate F → Type 0
  IsSound threshold c =
      (f.lt c.confidence threshold ≡ false)
      × (f.le c.w f.nought ≡ false)
      × (f.le c.h f.nought ≡ false)

  candidate_at-IsSound :
      (threshold cx cy w h : F) (b : F × ℕ) (c : Candidate F)
      → candidate_at threshold cx cy w h b ≡ some c
      → IsSound threshold c
  unfolding candidate_at
  candidate_at-IsSound threshold cx cy w h b c e = ground arith

  candidates_from-All :
      (P : Candidate F → Type 0) (threshold : F) (xs ys ws hs : List F) (a : ℕ) (bs : List (F × ℕ))
      → ((cx cy w h : F) (b : F × ℕ) (c : Candidate F)
          → candidate_at threshold cx cy w h b ≡ some c
          → P c)
      → All P (candidates_from threshold xs ys ws hs a bs)
  unfolding candidates_from
  candidates_from-All P threshold xs ys ws hs a [] h = tt
  candidates_from-All P threshold xs ys ws hs a (b ∷ bs) h =
      let ih = candidates_from-All P threshold xs ys ws hs (suc a) bs h in
      elim (Option-cases
        (candidate_at threshold (element xs a) (element ys a) (element ws a) (element hs a) b)) [
          | inl e ↦ rw (candidates_from, e) ih
          | inr (c, e) ↦
              rw (candidates_from, e)
                (h (element xs a) (element ys a) (element ws a) (element hs a) b c e, ih)
        ]

  -- A box with its corner in the frame or on its far sides, not empty, that does not end beyond the
  -- frame but where its corner is on such a side.
  abbrev pub IsInFrame : LetterboxParams F → BoundingBox → Type 0
  IsInFrame p b =
      (b.x ≤ p.orig_w)
      × (b.y ≤ p.orig_h)
      × (1 ≤ b.width)
      × (1 ≤ b.height)
      × ((b.x + b.width ≤ p.orig_w) ⊎ (b.width ≡ 1))
      × ((b.y + b.height ≤ p.orig_h) ⊎ (b.height ≡ 1))

  abbrev pub IsDetected : LetterboxParams F → F → ℕ → ℕ → Detection F → Type 0
  IsDetected p threshold frame_seq now d =
      IsInFrame p d.bbox
      × (f.lt d.confidence threshold ≡ false)
      × (d.frame_seq ≡ frame_seq)
      × (d.detected_at ≡ now)

side :
    (x x1 bound : ℕ)
    → x1 ≤ bound
    → (1 ≤ max (x1 - x) 1) × ((x + max (x1 - x) 1 ≤ bound) ⊎ (max (x1 - x) 1 ≡ 1))
side x x1 bound h = elim (dec_lt x x1) [
  | yes p ↦ (omega arith, inl (omega arith))
  | no q ↦ (omega arith, inr (omega arith))
]

module _ {F : Type 0} ⦃f : Float F⦄ (rounded : F → F)
    (truncate_clamp : (n : ℕ) (x : F)
      → n ≤ 2 ^ 24
      → f.truncate (clamp x f.nought (f.of_count n)) ≤ n) where
  pixel_within-le : (bound : ℕ) (v : F) → bound ≤ 2 ^ 24 → pixel_within rounded bound v ≤ bound
  unfolding pixel_within
  pixel_within-le bound v small = truncate_clamp bound (rounded v) small

  -- The sides are counted exactly by a float of 32 bits.
  abbrev IsExact : LetterboxParams F → Type 0
  IsExact p = (p.orig_w ≤ 2 ^ 24) × (p.orig_h ≤ 2 ^ 24)

  box_of-IsInFrame :
      (p : LetterboxParams F) (c : Candidate F) → IsExact p → IsInFrame p (box_of rounded p c)
  unfolding box_of
  box_of-IsInFrame p c exact =
      let h = side _ _ p.orig_w (pixel_within-le p.orig_w _ exact.0) in
      let v = side _ _ p.orig_h (pixel_within-le p.orig_h _ exact.1) in
      (pixel_within-le p.orig_w _ exact.0, pixel_within-le p.orig_h _ exact.1, h.0, v.0, h.1, v.1)

  detections-All :
      (p : LetterboxParams F) (threshold : F) (frame_seq now : ℕ) (cs : List (Candidate F))
      → IsExact p
      → All (IsSound threshold) cs
      → All (IsDetected p threshold frame_seq now) (detections rounded p frame_seq now cs)
  unfolding detections
  detections-All p threshold frame_seq now [] exact h = tt
  detections-All p threshold frame_seq now (c ∷ cs) exact h = (
    (box_of-IsInFrame p c exact, h.0.0, refl, refl),
    detections-All p threshold frame_seq now cs exact h.1,
  )

  row_fits : (r nc n : ℕ) → r < 4 → r * n + n ≤ (4 + nc) * n
  row_fits r nc n h = mul-below r (4 + nc) n (omega arith)

  -- For an output of the right length and a frame of at most 2^24 columns and rows the result is returned;
  -- each of its boxes has its corner in the frame or just beyond it, on its right or lower side (x at
  -- most orig_w, y at most orig_h), is not empty, and ends in the frame unless it is one pixel wide or
  -- high; no confidence is below the threshold; and each detection carries the number and the time that
  -- were given.
  pub postprocess-IsDetected :
      (output : List F) (nc n : ℕ) (p : LetterboxParams F) (conf iou : F) (frame_seq now : ℕ)
      → (p.orig_w ≤ 2 ^ 24) × (p.orig_h ≤ 2 ^ 24)
      → length output ≡ (4 + nc) * n
      → (ds : List (Detection F)) × (postprocess rounded output nc n p conf iou frame_seq now
          ≡ some ds)
        × All (IsDetected p conf frame_seq now) ds
  unfolding postprocess
  postprocess-IsDetected output nc n p conf iou frame_seq now exact h =
      let r0 = length-slice output (0 * n) n (omega (arith, h, row_fits 0 nc n (omega arith))) in
      let r1 = length-slice output (1 * n) n (omega (arith, h, row_fits 1 nc n (omega arith))) in
      let r2 = length-slice output (2 * n) n (omega (arith, h, row_fits 2 nc n (omega arith))) in
      let r3 = length-slice output (3 * n) n (omega (arith, h, row_fits 3 nc n (omega arith))) in
      let cr = length-slice output (4 * n) (nc * n) (omega (arith, h)) in
      let cands =
        candidates_from conf r0.0 r1.0 r2.0 r3.0 0 (best_classes n (chunks_exact n cr.0)) in
      let e : (length output == (4 + nc) * n) ≡ true = ground (arith, h) in
      (
        detections rounded p frame_seq now (survivors iou cands),
        rw (e, r0.1, r1.1, r2.1, r3.1, cr.1) refl,
        detections-All p conf frame_seq now (survivors iou cands) exact (
            survivors-All (IsSound conf) iou cands (
              candidates_from-All (IsSound conf) conf r0.0 r1.0 r2.0 r3.0 0
                (best_classes n (chunks_exact n cr.0)) (candidate_at-IsSound conf))),
      )
