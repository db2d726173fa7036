-- ===== src/Tracking/Single.antt =====
-- auto-targeting/crates/target-tracker/src/tracker.rs: the tracker of one target.
use autotargeting.Base.{
  ℕ, ◌+◌, ◌-◌, ◌/◌, Bool, false, ◌||◌, Option, none, some, List, [], ◌∷◌, if◌then◌else◌, ltb, leb,
  u32, u64,
}
use autotargeting.Floats.{Float, at_least}
use autotargeting.Types.{age_ms}
use autotargeting.Detections.{BoundingBox, Detection, TargetState, center, iou}
use autotargeting.Tracking.Kalman.{
  KalmanFilter, new, predict, update_from_bbox, position, velocity, frame_time,
}

pub record ActiveTrack (F : Type 0) : Type 0 where
  pub id : ℕ
  pub kalman : KalmanFilter F
  pub last_bbox : BoundingBox
  pub confidence : F
  pub last_seen : ℕ
  pub missed_frames : ℕ
  pub confirmation_count : ℕ

pub record TargetTracker (F : Type 0) : Type 0 where
  pub max_target_age_ms : ℕ
  pub max_missed_frames : ℕ
  pub lock_confirmation_frames : ℕ
  pub match_iou_threshold : F
  pub active : Option (ActiveTrack F)

abbrev pub tracker : {F : Type 0} → ℕ → ℕ → ℕ → F → TargetTracker F
tracker age missed lock threshold = record {
  max_target_age_ms = age;
  max_missed_frames = missed;
  lock_confirmation_frames = lock;
  match_iou_threshold = threshold;
  active = none;
}

module _ {F : Type 0} ⦃f : Float F⦄ where
  -- `counter` is the static one of the numbers; it and the new number are given back.
  unfoldable pub acquire : Detection F → ℕ → ℕ → TargetTracker F → TargetTracker F × ℕ × ℕ
  acquire detection now counter t =
      let (cx, cy) = center detection.bbox in
      (
        record t {
          active = some (record {
            id = counter;
            kalman = new cx cy;
            last_bbox = detection.bbox;
            confidence = detection.confidence;
            last_seen = now;
            missed_frames = 0;
            confirmation_count = 1;
          });
        },
        u64 (counter + 1),
        counter,
      )

  abbrev pub greater_overlap : Option (Detection F × F) → Detection F → F → Detection F × F
  greater_overlap none d overlap = (d, overlap)
  greater_overlap (some (b, best_overlap)) d overlap =
      if f.lt overlap best_overlap then (b, best_overlap) else (d, overlap)

  -- `max_by` on the overlaps above the threshold: of equal ones the last.
  unfoldable pub best_match :
      F → BoundingBox → Option (Detection F × F) → List (Detection F) → Option (Detection F × F)
  best_match threshold bbox best [] = best
  best_match threshold bbox best (d ∷ ds) =
      let overlap = iou d.bbox bbox in
      let next = if f.lt threshold overlap then some (greater_overlap best d overlap) else best in
      best_match threshold bbox next ds

  unfoldable pub follow : ℕ → ℕ → Detection F → ActiveTrack F → ActiveTrack F
  follow lock now det track = record track {
    kalman = update_from_bbox det.bbox frame_time track.kalman;
    last_bbox = det.bbox;
    confidence = det.confidence;
    last_seen = now;
    missed_frames = 0;
    confirmation_count =
        if ltb track.confirmation_count lock
        then track.confirmation_count + 1
        else track.confirmation_count;
  }

  unfoldable pub miss : ActiveTrack F → ActiveTrack F
  miss track =
      let kalman = predict frame_time track.kalman in
      let (px, py) = position kalman in
      let box = track.last_bbox in
      record track {
        kalman = kalman;
        missed_frames = u32 (track.missed_frames + 1);
        last_bbox = record box {
          x = f.truncate (at_least f.nought px) - box.width / 2;
          y = f.truncate (at_least f.nought py) - box.height / 2;
        };
      }

  unfoldable pub update_track :
      TargetTracker F → ℕ → List (Detection F) → ActiveTrack F → ActiveTrack F
  unfolding best_match follow miss
  update_track t now detections track =
      elim (best_match t.match_iou_threshold track.last_bbox none detections) [
        | none ↦ miss track
        | some (det, _) ↦ follow t.lock_confirmation_frames now det track
      ]

  unfoldable pub update : List (Detection F) → ℕ → TargetTracker F → TargetTracker F
  unfolding update_track
  update detections now t = elim t.active [
    | none ↦ t
    | some track ↦ record t { active = some (update_track t now detections track) }
  ]

  unfoldable pub active_target : TargetTracker F → Option (TargetState F)
  active_target t = elim t.active [
    | none ↦ none
    | some a ↦ some (record {
      id = a.id;
      bbox = a.last_bbox;
      velocity = velocity a.kalman;
      confidence = a.confidence;
      last_seen = a.last_seen;
      missed_frames = a.missed_frames;
    })
  ]

  unfoldable pub is_locked : TargetTracker F → Bool
  is_locked t = elim t.active [
    | none ↦ false
    | some a ↦ leb t.lock_confirmation_frames a.confirmation_count
  ]

  unfoldable pub is_lost : ℕ → TargetTracker F → Bool
  is_lost now t = elim t.active [
    | none ↦ false
    | some a ↦
        ltb t.max_missed_frames a.missed_frames || ltb t.max_target_age_ms (age_ms now a.last_seen)
  ]

  unfoldable pub clear : TargetTracker F → TargetTracker F
  clear t = record t { active = none }
