-- ===== src/Suppression/Tests.antt =====
-- Three detections, two of which overlap.
use autotargeting.Base.{ℕ, ◌≡◌, refl, List, [], ◌∷◌, All, Any, false}
use autotargeting.Floats.Milli.{Milli, num, milli_float}
use autotargeting.Detections.{Detection, iou}
use autotargeting.Suppression.{
  non_max_suppression, sort_descending, sort_onto, insert_sorted, keep_from, suppress,
}
use autotargeting.Suppression.Greedy.{IsApart, IsCovered, non_max_suppression-IsCovered}

abbrev detection : ℕ → ℕ → Detection Milli
detection x confidence = record {
  bbox = record { x = x; y = 100; width = 50; height = 50 };
  class_id = 0;
  confidence = num false confidence;
  frame_seq = 1;
  detected_at = 0;
}

abbrev three : List (Detection Milli)
three = detection 105 700 ∷ detection 500 800 ∷ detection 100 900 ∷ []

abbrev threshold : Milli
threshold = num false 450

keeps_two : non_max_suppression three threshold ≡ detection 100 900 ∷ detection 500 800 ∷ []
unfolding non_max_suppression sort_descending sort_onto insert_sorted keep_from suppress iou
keeps_two = refl

non_max_suppression-IsCovered_example :
    IsApart threshold (non_max_suppression three threshold)
    × All (IsCovered threshold (non_max_suppression three threshold)) three
    × All (λ k. Any (λ d. d ≡ k) three) (non_max_suppression three threshold)
non_max_suppression-IsCovered_example = non_max_suppression-IsCovered three threshold
