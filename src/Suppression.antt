-- ===== src/Suppression.antt =====
-- auto-targeting/crates/cv-inference/src/nms.rs: the suppression of overlapping detections.
pub mod Greedy
mod Tests
use autotargeting.Base.{ℕ, zero, suc, Bool, true, false, ◌||◌, List, [], ◌∷◌, if◌then◌else◌, length}
use autotargeting.Floats.{Float}
use autotargeting.Detections.{Detection, iou}

module _ {F : Type 0} ⦃f : Float F⦄ where
  -- `sort_by` is stable. Confidences are compared as numbers: the order that it gives lists with a NaN
  -- is open in the library, and here a NaN stays behind the detections before it.
  unfoldable pub insert_sorted : Detection F → List (Detection F) → List (Detection F)
  insert_sorted d [] = d ∷ []
  insert_sorted d (e ∷ es) =
      let rest = insert_sorted d es in
      if f.lt e.confidence d.confidence then d ∷ e ∷ es else e ∷ rest

  -- From the front: a detection goes behind the equal ones that came before it.
  unfoldable pub sort_onto : List (Detection F) → List (Detection F) → List (Detection F)
  sort_onto sorted [] = sorted
  sort_onto sorted (d ∷ ds) = sort_onto (insert_sorted d sorted) ds

  unfoldable pub sort_descending : List (Detection F) → List (Detection F)
  unfolding sort_onto
  sort_descending ds = sort_onto [] ds

  -- The inner loop: the flags of the detections after `d`.
  unfoldable pub suppress : F → Detection F → List (Detection F × Bool) → List (Detection F × Bool)
  suppress threshold d [] = []
  suppress threshold d ((e, suppressed) ∷ es) =
      (e, suppressed || f.lt threshold (iou d.bbox e.bbox)) ∷ suppress threshold d es

  -- The outer loop with `n` rounds left, on the detections from index `i` on with their flags.
  unfoldable pub keep_from : ℕ → F → List (Detection F × Bool) → List (Detection F)
  keep_from zero threshold ds = []
  keep_from (suc n) threshold [] = []
  keep_from (suc n) threshold ((d, suppressed) ∷ ds) =
      let skipped = keep_from n threshold ds in
      let kept = keep_from n threshold (suppress threshold d ds) in
      if suppressed then skipped else d ∷ kept

  abbrev pub unmarked : List (Detection F) → List (Detection F × Bool)
  unmarked [] = []
  unmarked (d ∷ ds) = (d, false) ∷ unmarked ds

  unfoldable pub non_max_suppression : List (Detection F) → F → List (Detection F)
  unfolding sort_descending keep_from
  non_max_suppression ds threshold =
      let sorted = sort_descending ds in keep_from (length sorted) threshold (unmarked sorted)
