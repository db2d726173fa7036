-- ===== src/Yolo/Postprocess.antt =====
-- auto-targeting/crates/yolov8/src/lib.rs: letterbox, suppression, and the way back to the frame. The
-- rounding of floats and the least positive float are parameters; the text of a class is left out.
use autotargeting.Base.{
  ℕ, zero, suc, ◌+◌, ◌-◌, ◌*◌, max, Bool, false, ◌||◌, Option, none, some, List, [], ◌∷◌, ◌==◌,
  if◌then◌else◌, length, slice, chunks_exact, and_then,
}
use autotargeting.Floats.{Float, clamp}
use autotargeting.Detections.{BoundingBox, Detection}
use autotargeting.Yolo.Candidates.{
  Candidate, half, larger, smaller, best_classes, candidates_from, iou_640,
}

abbrev pub input_size : ℕ
input_size = 640

pub record LetterboxParams (F : Type 0) : Type 0 where
  pub orig_w : ℕ
  pub orig_h : ℕ
  pub scale : F
  pub pad_x : F
  pub pad_y : F

module _ {F : Type 0} ⦃f : Float F⦄ where
  unfoldable pub compute_letterbox : F → ℕ → ℕ → ℕ → F × F × F
  compute_letterbox min_positive orig_w orig_h target =
      let ow = f.of_count orig_w in
      let oh = f.of_count orig_h in
      let tg = f.of_count target in
      let scale = larger (smaller (f.div tg ow) (f.div tg oh)) min_positive in
      (scale, f.mul (f.sub tg (f.mul ow scale)) half, f.mul (f.sub tg (f.mul oh scale)) half)

  unfoldable pub for_size : F → ℕ → ℕ → LetterboxParams F
  for_size min_positive orig_w orig_h =
      let box = compute_letterbox min_positive orig_w orig_h input_size in
      record { orig_w = orig_w; orig_h = orig_h; scale = box.0; pad_x = box.1; pad_y = box.2 }

  unfoldable pub unproject_xy : LetterboxParams F → F → F → F × F
  unproject_xy p cx640 cy640 =
      (f.div (f.sub cx640 p.pad_x) p.scale, f.div (f.sub cy640 p.pad_y) p.scale)

  -- `sort_by` is stable; a candidate has a number for its confidence.
  unfoldable pub insert_candidate : Candidate F → List (Candidate F) → List (Candidate F)
  insert_candidate c [] = c ∷ []
  insert_candidate c (d ∷ ds) =
      let rest = insert_candidate c ds in
      if f.lt d.confidence c.confidence then c ∷ d ∷ ds else d ∷ rest

  unfoldable pub sort_candidates : List (Candidate F) → List (Candidate F) → List (Candidate F)
  sort_candidates sorted [] = sorted
  sort_candidates sorted (c ∷ cs) = sort_candidates (insert_candidate c sorted) cs

  -- The inner loop: the flags of the candidates after `c`.
  unfoldable pub suppress_after :
      F → Candidate F → List (Candidate F × Bool) → List (Candidate F × Bool)
  suppress_after threshold c [] = []
  suppress_after threshold c ((d, suppressed) ∷ ds) =
      (d, suppressed || f.lt threshold (iou_640 c d)) ∷ suppress_after threshold c ds

  -- The outer loop on what is left, with as many rounds.
  unfoldable pub keep_candidates : ℕ → F → List (Candidate F × Bool) → List (Candidate F)
  keep_candidates zero threshold ds = []
  keep_candidates (suc n) threshold [] = []
  keep_candidates (suc n) threshold ((c, suppressed) ∷ ds) =
      let skipped = keep_candidates n threshold ds in
      let kept = keep_candidates n threshold (suppress_after threshold c ds) in
      if suppressed then skipped else c ∷ kept

  abbrev pub unflagged : List (Candidate F) → List (Candidate F × Bool)
  unflagged [] = []
  unflagged (c ∷ cs) = (c, false) ∷ unflagged cs

  -- `v.round().clamp(0.0, bound as f32) as u32`.
  unfoldable pub pixel_within : (F → F) → ℕ → F → ℕ
  pixel_within rounded bound v = f.truncate (clamp (rounded v) f.nought (f.of_count bound))

  -- The box of a candidate in the frame, never empty.
  unfoldable pub box_of : (F → F) → LetterboxParams F → Candidate F → BoundingBox
  box_of rounded p c =
      let centre = unproject_xy p c.cx c.cy in
      let bw = f.div c.w p.scale in
      let bh = f.div c.h p.scale in
      let x = pixel_within rounded p.orig_w (f.sub centre.0 (f.mul bw half)) in
      let y = pixel_within rounded p.orig_h (f.sub centre.1 (f.mul bh half)) in
      let x1 = pixel_within rounded p.orig_w (f.add centre.0 (f.mul bw half)) in
      let y1 = pixel_within rounded p.orig_h (f.add centre.1 (f.mul bh half)) in
      record { x = x; y = y; width = max (x1 - x) 1; height = max (y1 - y) 1 }

  unfoldable pub detections :
      (F → F) → LetterboxParams F → ℕ → ℕ → List (Candidate F) → List (Detection F)
  detections rounded p frame_seq now [] = []
  detections rounded p frame_seq now (c ∷ cs) =
      record {
        bbox = box_of rounded p c;
        class_id = c.class_id;
        confidence = c.confidence;
        frame_seq = frame_seq;
        detected_at = now;
      }
      ∷ detections rounded p frame_seq now cs

  -- The candidates that are left after the suppression, the most confident first.
  unfoldable pub survivors : F → List (Candidate F) → List (Candidate F)
  survivors iou_threshold cands =
      let sorted = sort_candidates [] cands in
      keep_candidates (length sorted) iou_threshold (unflagged sorted)

  -- none where the assertion on the length of the output fails.
  unfoldable pub postprocess :
      (F → F)
      → List F
      → (num_classes num_anchors : ℕ) → LetterboxParams F
      → (conf_threshold iou_threshold : F) → (frame_seq now : ℕ) → Option (List (Detection F))
  postprocess rounded output nc n p conf_threshold iou_threshold frame_seq now =
      let row = λ (r : ℕ). slice output (r * n) n in
      if length output == (4 + nc) * n
      then and_then (row 0) (λ cx_row. and_then (row 1) (λ cy_row. and_then (row 2) (λ w_row.
        and_then (row 3) (λ h_row. and_then (slice output (4 * n) (nc * n)) (λ class_rows. some (
          detections rounded p frame_seq now (
            survivors iou_threshold (
              candidates_from conf_threshold cx_row cy_row w_row h_row 0
                (best_classes n (chunks_exact n class_rows))))))))))
      else none
