-- ===== src/Yolo/Candidates.antt =====
-- auto-targeting/crates/yolov8/src/lib.rs: the best class of every anchor, the candidates, and what
-- two of them have in common.
use autotargeting.Base.{
  ℕ, suc, Bool, not, ◌||◌, Option, none, some, List, [], ◌∷◌, if◌then◌else◌, get_elem?, replicate,
}
use autotargeting.Floats.{Float, clamp}

-- A candidate in the square of the network, by its centre.
pub record Candidate (F : Type 0) : Type 0 where
  pub cx : F
  pub cy : F
  pub w : F
  pub h : F
  pub class_id : ℕ
  pub confidence : F

module _ {F : Type 0} ⦃f : Float F⦄ where
  abbrev pub half : F
  half = f.literal 5 1

  abbrev is_nan : F → Bool
  is_nan x = not (f.le x x)

  -- `max` and `min` of the language: a NaN gives way to the other.
  abbrev pub larger : F → F → F
  larger a b = if is_nan a || f.lt a b then b else a

  abbrev pub smaller : F → F → F
  smaller a b = if is_nan a || f.lt b a then b else a

  abbrev pub is_finite : F → Bool
  is_finite x = f.lt (f.abs x) f.infinity

  -- A score of the class `c` against the best one so far.
  unfoldable pub better : ℕ → F → F × ℕ → F × ℕ
  better c s (score, id) = if f.lt score s then (s, c) else (score, id)

  -- The row of one class, over all anchors.
  unfoldable pub scan_row : ℕ → List F → List (F × ℕ) → List (F × ℕ)
  scan_row c [] best = best
  scan_row c (s ∷ ss) [] = []
  scan_row c (s ∷ ss) (b ∷ bs) = better c s b ∷ scan_row c ss bs

  -- The classes from `c` on, row after row.
  unfoldable pub scan_classes : ℕ → List (List F) → List (F × ℕ) → List (F × ℕ)
  scan_classes c [] best = best
  scan_classes c (row ∷ rows) best = scan_classes (suc c) rows (scan_row c row best)

  unfoldable pub best_classes : ℕ → List (List F) → List (F × ℕ)
  best_classes num_anchors rows = scan_classes 0 rows (replicate num_anchors (f.neg f.infinity, 0))

  -- The element of a row at an anchor; the rows are as long as there are anchors.
  unfoldable pub element : List F → ℕ → F
  element row a = elim (get_elem? row a) [ none ↦ f.nan | some x ↦ x ]

  -- One anchor: its candidate, unless the score is below the threshold or the box is degenerate.
  unfoldable pub candidate_at : F → (cx cy w h : F) → F × ℕ → Option (Candidate F)
  candidate_at threshold cx cy w h (score, id) =
      let conf = clamp score f.nought f.one in
      if f.lt conf threshold
      then none
      else if not (is_finite cx) || not (is_finite cy) || f.le w f.nought || f.le h f.nought
      then none
      else some (record { cx = cx; cy = cy; w = w; h = h; class_id = id; confidence = conf })

  -- The anchors from `a` on.
  unfoldable pub candidates_from :
      F → (cx_row cy_row w_row h_row : List F) → ℕ → List (F × ℕ) → List (Candidate F)
  candidates_from threshold cx_row cy_row w_row h_row a [] = []
  candidates_from threshold cx_row cy_row w_row h_row a (b ∷ bs) =
      let rest = candidates_from threshold cx_row cy_row w_row h_row (suc a) bs in
      elim (candidate_at threshold (element cx_row a) (element cy_row a) (element w_row a)
        (element h_row a) b) [ none ↦ rest | some c ↦ c ∷ rest ]

  unfoldable pub iou_640 : Candidate F → Candidate F → F
  iou_640 a b =
      let inter_x1 = larger (f.sub a.cx (f.mul a.w half)) (f.sub b.cx (f.mul b.w half)) in
      let inter_y1 = larger (f.sub a.cy (f.mul a.h half)) (f.sub b.cy (f.mul b.h half)) in
      let inter_x2 = smaller (f.add a.cx (f.mul a.w half)) (f.add b.cx (f.mul b.w half)) in
      let inter_y2 = smaller (f.add a.cy (f.mul a.h half)) (f.add b.cy (f.mul b.h half)) in
      let iw = larger (f.sub inter_x2 inter_x1) f.nought in
      let ih = larger (f.sub inter_y2 inter_y1) f.nought in
      let inter = f.mul iw ih in
      let union = f.sub (f.add (f.mul a.w a.h) (f.mul b.w b.h)) inter in
      if f.le union f.nought then f.nought else f.div inter union
