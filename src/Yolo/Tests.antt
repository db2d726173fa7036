-- ===== src/Yolo/Tests.antt =====
-- Tests of Yolo.antt, and the witnesses of its results.
use autotargeting.Base.{
  ℕ, ◌*◌, ◌^◌, ◌≤◌, ◌≡◌, ◌⊎◌, refl, true, false, some, List, [], ◌∷◌, get_elem?, All, arith,
}
use autotargeting.Floats.{clamp}
use autotargeting.Floats.Milli.{Milli, num, not_a_number, infinite, milli_float, Milli-IsIeee}
use autotargeting.Detections.{Detection}
use autotargeting.Yolo.Candidates.{best_classes}
use autotargeting.Yolo.Postprocess.{LetterboxParams, postprocess}
use autotargeting.Yolo.Columns.{column, best_classes-IsBest}
use autotargeting.Yolo.Frame.{IsDetected, postprocess-IsDetected}

abbrev tenths : ℕ → Milli
tenths n = num false (n * 100)

-- Two classes at three anchors.
abbrev two_classes : List (List Milli)
two_classes = (tenths 1 ∷ tenths 5 ∷ tenths 9 ∷ []) ∷ (tenths 4 ∷ tenths 2 ∷ not_a_number ∷ []) ∷ []

best_classes-IsBest_example :
    (r : Milli × ℕ) × (get_elem? (best_classes 3 two_classes) 1 ≡ some r)
    × All (λ (s : Milli). milli_float.lt r.0 s ≡ false) (column two_classes 1)
    × ((r ≡ (infinite true, 0)) ⊎ (get_elem? (column two_classes 1) r.1 ≡ some r.0))
best_classes-IsBest_example =
    best_classes-IsBest Milli-IsIeee two_classes 3 1 (refl, (refl, tt)) (omega arith)

-- Rounding to the left suffices here.
abbrev as_is : Milli → Milli
as_is x = x

truncate-clamp_milli :
    (n : ℕ) (x : Milli)
    → n ≤ 2 ^ 24
    → milli_float.truncate (clamp x milli_float.nought (milli_float.of_count n)) ≤ n
truncate-clamp_milli n x small = ground arith

-- One class and one anchor, in the middle of the square.
abbrev one_box : List Milli
one_box =
    num false 320_000 ∷ num false 320_000 ∷ num false 64_000 ∷ num false 32_000 ∷ tenths 9 ∷ []

abbrev square : LetterboxParams Milli
square = record {
  orig_w = 640;
  orig_h = 640;
  scale = num false 1000;
  pad_x = num false 0;
  pad_y = num false 0;
}

postprocess-IsDetected_example :
    (ds : List (Detection Milli)) × (postprocess as_is one_box 1 1 square (tenths 5) (tenths 4) 7 8
      ≡ some ds)
    × All (IsDetected square (tenths 5) 7 8) ds
postprocess-IsDetected_example =
    postprocess-IsDetected as_is truncate-clamp_milli one_box 1 1 square (tenths 5) (tenths 4) 7 8
      (omega arith, omega arith) refl
