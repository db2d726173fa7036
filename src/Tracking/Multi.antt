-- ===== src/Tracking/Multi.antt =====
-- auto-targeting/crates/target-tracker/src/multi_tracker.rs: the tracker of many targets. The clock is
-- read once for what a call sees and creates, and again where it removes. A call is `none` where the
-- assignment does not return.
use autotargeting.Base.{
  ℕ, ◌+◌, min, max, Bool, true, false, ◌||◌, Option, none, some, List, [], ◌∷◌, if◌then◌else◌, ltb,
  leb, ◌==◌, u64, length, get_elem?, Map, nat_key, lookup, remove, insert, modify, select,
  map_values, map_option,
}
use autotargeting.Floats.{Float}
use autotargeting.Types.{age_ms}
use autotargeting.Detections.{BoundingBox, Detection, TargetState, center, iou}
use autotargeting.Assignment.{solve}
use autotargeting.Tracking.Kalman.{
  KalmanFilter, new, predict, update_from_bbox, velocity, frame_time,
}

pub record Track (F : Type 0) : Type 0 where
  pub id : ℕ
  pub kalman : KalmanFilter F
  pub last_bbox : BoundingBox
  pub confidence : F
  pub last_seen : ℕ
  pub missed_frames : ℕ
  pub confirmation_count : ℕ

pub record MultiTargetTracker (F : Type 0) : Type 0 where
  pub tracks : Map ℕ (Track F)
  pub max_target_age_ms : ℕ
  pub max_missed_frames : ℕ
  pub match_iou_threshold : F
  pub lock_confirmation_frames : ℕ
  pub next_id : ℕ
  pub auto_create_tracks : Bool
  pub max_tracks : ℕ

-- `saturating_add(1)` on a `u32`.
abbrev pub one_more : ℕ → ℕ
one_more n = min (n + 1) 4_294_967_295

module _ {F : Type 0} where
  abbrev pub multi_tracker : ℕ → ℕ → F → MultiTargetTracker F
  multi_tracker age missed threshold = record {
    tracks = [];
    max_target_age_ms = age;
    max_missed_frames = missed;
    match_iou_threshold = threshold;
    lock_confirmation_frames = 3;
    next_id = 1;
    auto_create_tracks = false;
    max_tracks = 64;
  }

  abbrev pub with_max_tracks : ℕ → MultiTargetTracker F → MultiTargetTracker F
  with_max_tracks n t = record t { max_tracks = max n 1 }

  abbrev pub with_auto_create : Bool → MultiTargetTracker F → MultiTargetTracker F
  with_auto_create enabled t = record t { auto_create_tracks = enabled }

  abbrev pub set_tracks : Map ℕ (Track F) → MultiTargetTracker F → MultiTargetTracker F
  set_tracks tracks t = record t { tracks = tracks }

-- What the loop over the assignment has changed.
pub record Matched (F : Type 0) : Type 0 where
  pub tracks : Map ℕ (Track F)
  pub detections : ℕ → Bool
  pub ids : ℕ → Bool

abbrev is_some : {A : Type 0} → Option A → Bool
is_some none = false
is_some (some _) = true

abbrev pub add_to : ℕ → (ℕ → Bool) → ℕ → Bool
add_to i set j = (j == i) || set j

module _ {F : Type 0} ⦃f : Float F⦄ where
  unfoldable pub new_track : ℕ → Detection F → ℕ → Track F
  unfolding center
  new_track id detection now =
      let (cx, cy) = center detection.bbox in
      record {
        id = id;
        kalman = new cx cy;
        last_bbox = detection.bbox;
        confidence = detection.confidence;
        last_seen = now;
        missed_frames = 0;
        confirmation_count = 1;
      }

  unfoldable pub update_with_detection : Detection F → ℕ → Track F → Track F
  update_with_detection detection now t = record t {
    kalman = update_from_bbox detection.bbox frame_time t.kalman;
    last_bbox = detection.bbox;
    confidence = detection.confidence;
    last_seen = now;
    missed_frames = 0;
    confirmation_count = one_more t.confirmation_count;
  }

  unfoldable pub predict_only : Track F → Track F
  predict_only t = record t {
    kalman = predict frame_time t.kalman;
    missed_frames = one_more t.missed_frames;
  }

  unfoldable pub to_state : Track F → TargetState F
  to_state t = record {
    id = t.id;
    bbox = t.last_bbox;
    velocity = velocity t.kalman;
    confidence = t.confidence;
    last_seen = t.last_seen;
    missed_frames = t.missed_frames;
  }

  unfoldable pub create_track : Detection F → ℕ → MultiTargetTracker F → MultiTargetTracker F × ℕ
  create_track detection now t =
      let id = t.next_id in
      (
        record t {
          next_id = u64 (id + 1);
          tracks = insert id (new_track id detection now) t.tracks;
        },
        id,
      )

  -- The loops that create tracks, over the detections from index `j` on: one that is not matched gets a
  -- track unless there are too many.
  unfoldable pub create_from :
      (ℕ → Bool) → ℕ → ℕ → List (Detection F) → MultiTargetTracker F → MultiTargetTracker F
  unfolding create_track
  create_from matched now j [] t = t
  create_from matched now j (d ∷ ds) t =
      let (created, _) = create_track d now t in
      let next = if matched j || leb t.max_tracks (length t.tracks) then t else created in
      create_from matched now (j + 1) ds next

  unfoldable pub stays : ℕ → MultiTargetTracker F → Track F → Option (Track F)
  stays now t track =
      if ltb t.max_missed_frames track.missed_frames
        || ltb t.max_target_age_ms (age_ms now track.last_seen)
      then none
      else some track

  unfoldable pub remove_lost_tracks : ℕ → MultiTargetTracker F → MultiTargetTracker F
  unfolding stays
  remove_lost_tracks now t = set_tracks (select (stays now t) t.tracks) t

  unfoldable pub cost_row : BoundingBox → List (Detection F) → List F
  cost_row box [] = []
  cost_row box (d ∷ ds) = f.sub f.one (iou box d.bbox) ∷ cost_row box ds

  unfoldable pub cost_matrix : Map ℕ (Track F) → List (Detection F) → List (List F)
  unfolding cost_row
  cost_matrix [] ds = []
  cost_matrix ((_, track) ∷ tracks) ds = cost_row track.last_bbox ds ∷ cost_matrix tracks ds

  -- One row: a detection that is assigned and overlaps enough updates the track.
  unfoldable pub apply_cell :
      F → List (Detection F) → ℕ → ℕ → List F → Option ℕ → Matched F → Matched F
  apply_cell threshold ds now id row none m = m
  apply_cell threshold ds now id row (some j) m = elim (get_elem? row j) [
    | none ↦ m
    | some cost ↦ elim (get_elem? ds j) [
      | none ↦ m
      | some d ↦
          if f.le threshold (f.sub f.one cost)
          then record {
            tracks = modify id (update_with_detection d now) m.tracks;
            detections = add_to j m.detections;
            ids = add_to id m.ids;
          }
          else m
    ]
  ]

  -- `track_ids`, the matrix and the assignment are read together, row by row. A column of the assignment
  -- is an index of the row and of the detections.
  unfoldable pub apply_assignment :
      F
      → List (Detection F)
      → ℕ
      → Map ℕ (Track F)
      → List (List F)
      → List (Option ℕ)
      → Matched F
      → Matched F
  unfolding apply_cell
  apply_assignment threshold ds now ((id, _) ∷ ids) (row ∷ rows) (assign ∷ assignment) m =
      apply_assignment threshold ds now ids rows assignment
        (apply_cell threshold ds now id row assign m)
  apply_assignment threshold ds now ids rows assignment m = m

  unfoldable pub age_unmatched : (ℕ → Bool) → Map ℕ (Track F) → Map ℕ (Track F) → Map ℕ (Track F)
  unfolding predict_only
  age_unmatched matched [] tracks = tracks
  age_unmatched matched ((id, _) ∷ ids) tracks =
      age_unmatched matched ids (if matched id then tracks else modify id predict_only tracks)

  -- `update` once the assignment is known, up to the removal.
  unfoldable pub assigned :
      List (Detection F) → ℕ → List (Option ℕ) → MultiTargetTracker F → MultiTargetTracker F
  unfolding cost_matrix apply_assignment age_unmatched create_from
  assigned ds now assignment t =
      let m =
        apply_assignment t.match_iou_threshold ds now t.tracks (cost_matrix t.tracks ds) assignment
          (record { tracks = t.tracks; detections = λ _. false; ids = λ _. false }) in
      let aged = set_tracks (age_unmatched m.ids t.tracks m.tracks) t in
      if t.auto_create_tracks then create_from m.detections now 0 ds aged else aged

  unfoldable pub get_track : ℕ → MultiTargetTracker F → Option (TargetState F)
  unfolding to_state
  get_track id t = map_option to_state (lookup id t.tracks)

  unfoldable pub active_tracks : Map ℕ (Track F) → List (TargetState F)
  active_tracks [] = []
  active_tracks ((_, track) ∷ tracks) = to_state track ∷ active_tracks tracks

  unfoldable pub is_locked : ℕ → MultiTargetTracker F → Bool
  is_locked id t = elim (lookup id t.tracks) [
    | none ↦ false
    | some track ↦ leb t.lock_confirmation_frames track.confirmation_count
  ]

  unfoldable pub remove_track : ℕ → MultiTargetTracker F → MultiTargetTracker F × Bool
  remove_track id t = (set_tracks (remove id t.tracks) t, is_some (lookup id t.tracks))

  unfoldable pub clear : MultiTargetTracker F → MultiTargetTracker F
  clear t = set_tracks [] t

module _ {F G : Type 0} ⦃f : Float F⦄ ⦃g : Float G⦄ (widen : F → G) where
  unfoldable pub update :
      List (Detection F) → ℕ → ℕ → MultiTargetTracker F → Option (MultiTargetTracker F)
  unfolding assigned remove_lost_tracks create_from
  update ds now later t =
      if length t.tracks == 0
      then some (if t.auto_create_tracks then create_from (λ _. false) now 0 ds t else t)
      else if length ds == 0
      then some (remove_lost_tracks later (set_tracks (map_values predict_only t.tracks) t))
      else map_option (λ assignment. remove_lost_tracks later (assigned ds now assignment t))
          (solve widen (cost_matrix t.tracks ds))
