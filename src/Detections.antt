-- ===== src/Detections.antt =====
-- auto-targeting/crates/common/src/types.rs: boxes, detections and targets. The sides are `u32` and
-- wrap round as in a release build.
use autotargeting.Base.{ℕ, ◌+◌, ◌-◌, ◌*◌, min, max, Bool, ◌||◌, u32, leb, ltb, if◌then◌else◌}
use autotargeting.Floats.{Float}
use autotargeting.Types.{age_ms}

pub record BoundingBox : Type 0 where
  pub x : ℕ
  pub y : ℕ
  pub width : ℕ
  pub height : ℕ

-- The text of the class is left out: `class_id` stands for it.
pub record Detection (F : Type 0) : Type 0 where
  pub bbox : BoundingBox
  pub class_id : ℕ
  pub confidence : F
  pub frame_seq : ℕ
  pub detected_at : ℕ

pub record TargetState (F : Type 0) : Type 0 where
  pub id : ℕ
  pub bbox : BoundingBox
  pub velocity : F × F
  pub confidence : F
  pub last_seen : ℕ
  pub missed_frames : ℕ

-- `TargetState::is_lost`.
unfoldable pub is_lost : {F : Type 0} → TargetState F → ℕ → ℕ → Bool
is_lost t now max_age_ms = ltb max_age_ms (age_ms now t.last_seen)

module _ {F : Type 0} ⦃f : Float F⦄ where
  unfoldable pub center : BoundingBox → F × F
  center b = (
    f.add (f.of_count b.x) (f.div (f.of_count b.width) f.two),
    f.add (f.of_count b.y) (f.div (f.of_count b.height) f.two),
  )

  unfoldable pub iou : BoundingBox → BoundingBox → F
  iou a b =
      let x1 = max a.x b.x in
      let y1 = max a.y b.y in
      let x2 = min (u32 (a.x + a.width)) (u32 (b.x + b.width)) in
      let y2 = min (u32 (a.y + a.height)) (u32 (b.y + b.height)) in
      if leb x2 x1 || leb y2 y1
      then f.nought
      else let intersection = f.mul (f.of_count (x2 - x1)) (f.of_count (y2 - y1)) in
        let areas = u32 (u32 (a.width * a.height) + u32 (b.width * b.height)) in
        let union = f.sub (f.of_count areas) intersection in
        if f.le union f.nought then f.nought else f.div intersection union
