-- ===== src/Tracking/Tests.antt =====
-- The trackers at work.
use autotargeting.Base.{
  ℕ, ◌≡◌, ◌≤◌, ◌+◌, ◌⊎◌, refl, max, true, false, Option, none, some, List, [], ◌∷◌, leb, length,
  insert, lookup, select, modify, All, Any, arith,
}
use autotargeting.Floats.Milli.{Milli, num, milli_float, Milli-IsIeee}
use autotargeting.Detections.{BoundingBox, Detection, iou}
use autotargeting.Tracking.Single.{
  TargetTracker, ActiveTrack, tracker, acquire, update, is_locked, miss, follow,
}
use autotargeting.Tracking.Multi.{
  MultiTargetTracker, multi_tracker, with_auto_create, with_max_tracks, create_track,
}
use autotargeting.Tracking.Multi
use autotargeting.Tracking.Kalman
use autotargeting.Assignment.{solve}
use autotargeting.Tracking.Lock.{Frame, run, sightings, locked_after}
use autotargeting.Tracking.Choice.{update_follows}
use autotargeting.Tracking.Numbering.{Grows}
use autotargeting.Tracking.Growth.{update-Grows}

abbrev box : ℕ → BoundingBox
box x = record { x = x; y = 100; width = 50; height = 80 }

abbrev seen_at : ℕ → Detection Milli
seen_at x = record {
  bbox = box x;
  class_id = 0;
  confidence = num false 900;
  frame_seq = 1;
  detected_at = 0;
}

abbrev single : TargetTracker Milli
single = tracker 2000 60 3 (num false 300)

abbrev frames : List (Frame Milli)
frames = (seen_at 102 ∷ [], 10) ∷ ([], 20) ∷ (seen_at 101 ∷ seen_at 400 ∷ [], 30) ∷ []

-- Two sightings with a miss between them lock the target.
locks : is_locked (run frames (acquire (seen_at 100) 0 1 single).0) ≡ true
unfolding is_locked update acquire iou Kalman.predict Kalman.update_from_bbox Kalman.new
locks = refl

locked_after_example :
    is_locked (run frames (acquire (seen_at 100) 0 1 single).0)
    ≡ leb 3 (1 + sightings frames (acquire (seen_at 100) 0 1 single).0)
unfolding acquire
locked_after_example = locked_after frames (seen_at 100) 0 1 single

abbrev target : ActiveTrack Milli
target = record {
  id = 1;
  kalman = record {
    state = record {
      x = num false 125_000;
      y = num false 140_000;
      vx = num false 0;
      vy = num false 0;
    };
    process_noise = num false 1000;
    measurement_noise = num false 4000;
  };
  last_bbox = box 100;
  confidence = num false 900;
  last_seen = 0;
  missed_frames = 0;
  confirmation_count = 1;
}

abbrev following : TargetTracker Milli
following = record single { active = some target }

update_follows_example :
    ((update (seen_at 102 ∷ seen_at 101 ∷ []) 5 following
        ≡ record following { active = some (miss target) })
      × All
          (λ e. milli_float.lt (num false 300) (iou e.bbox (box 100)) ≡ false)
          (seen_at 102 ∷ seen_at 101 ∷ []))
    ⊎ ((d : Detection Milli) × (update (seen_at 102 ∷ seen_at 101 ∷ []) 5 following
          ≡ record following { active = some (follow 3 5 d target) })
        × Any (λ e. e ≡ d) (seen_at 102 ∷ seen_at 101 ∷ [])
        × (milli_float.lt (num false 300) (iou d.bbox (box 100)) ≡ true)
        × All
            (λ e. milli_float.lt (iou d.bbox (box 100)) (iou e.bbox (box 100)) ≡ false)
            (seen_at 102 ∷ seen_at 101 ∷ []))
update_follows_example =
    update_follows Milli-IsIeee (seen_at 102 ∷ seen_at 101 ∷ []) 5 following target refl

abbrev keep : Milli → Milli
keep x = x

-- One track.
unfoldable one_track : MultiTargetTracker Milli
unfolding create_track
one_track =
    (create_track (seen_at 100) 0 (with_auto_create true (multi_tracker 2000 60 (num false 300)))).0

abbrev or_else :
    Option (MultiTargetTracker Milli) → MultiTargetTracker Milli → MultiTargetTracker Milli
or_else none t = t
or_else (some t') t = t'

-- It moves on, and another comes.
unfoldable two_tracks : MultiTargetTracker Milli
unfolding Multi.update
two_tracks = or_else (Multi.update keep (seen_at 102 ∷ seen_at 400 ∷ []) 10 10 one_track) one_track

update-Grows_example :
    Grows one_track two_tracks
    × (length two_tracks.tracks ≤ max one_track.max_tracks (length one_track.tracks))
unfolding one_track two_tracks Multi.update insert lookup Multi.new_track solve iou
update-Grows_example =
    update-Grows keep (seen_at 102 ∷ seen_at 400 ∷ []) 10 10 one_track two_tracks
      ((refl, tt), ((omega arith, refl), tt)) (omega arith) refl

grown : length two_tracks.tracks ≡ 2
unfolding one_track two_tracks Multi.update insert solve iou Multi.new_track select modify
    Multi.update_with_detection
grown = refl
