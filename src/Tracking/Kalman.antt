-- ===== src/Tracking/Kalman.antt =====
-- auto-targeting/crates/target-tracker/src/kalman.rs: the constant-velocity filter of a position.
use autotargeting.Base.{if◌then◌else◌}
use autotargeting.Floats.{Float}
use autotargeting.Detections.{BoundingBox, center}

pub record State (F : Type 0) : Type 0 where
  pub x : F
  pub y : F
  pub vx : F
  pub vy : F

pub record KalmanFilter (F : Type 0) : Type 0 where
  pub state : State F
  pub process_noise : F
  pub measurement_noise : F

module _ {F : Type 0} ⦃f : Float F⦄ where
  abbrev pub at_position : F → F → State F
  at_position x y = record { x = x; y = y; vx = f.nought; vy = f.nought }

  unfoldable pub predicted_position : State F → F → F × F
  predicted_position s dt = (f.add s.x (f.mul s.vx dt), f.add s.y (f.mul s.vy dt))

  unfoldable pub with_noise : F → F → F → F → KalmanFilter F
  with_noise x y process measurement = record {
    state = at_position x y;
    process_noise = process;
    measurement_noise = measurement;
  }

  unfoldable pub new : F → F → KalmanFilter F
  unfolding with_noise
  new x y = with_noise x y f.one (f.literal 4 0)

  unfoldable pub predict : F → KalmanFilter F → KalmanFilter F
  predict dt k =
      let s = k.state in
      record k { state = record s { x = f.add s.x (f.mul s.vx dt); y = f.add s.y (f.mul s.vy dt) } }

  -- The velocity blended with that of the residual.
  unfoldable pub blend : F → F → F → F → F
  blend dt v obs pred =
      let alpha = f.literal 3 1 in
      f.add (f.mul (f.sub f.one alpha) v) (f.mul alpha (f.div (f.sub obs pred) dt))

  unfoldable pub update : F → F → F → KalmanFilter F → KalmanFilter F
  unfolding blend
  update obs_x obs_y dt k =
      let s = k.state in
      let gain = f.div k.measurement_noise (f.add k.measurement_noise k.process_noise) in
      let inv_gain = f.sub f.one gain in
      let moving = f.lt (f.literal 1 6) dt in
      record k {
        state = record {
          x = f.add (f.mul inv_gain s.x) (f.mul gain obs_x);
          y = f.add (f.mul inv_gain s.y) (f.mul gain obs_y);
          vx = if moving then blend dt s.vx obs_x s.x else s.vx;
          vy = if moving then blend dt s.vy obs_y s.y else s.vy;
        };
      }

  unfoldable pub update_from_bbox : BoundingBox → F → KalmanFilter F → KalmanFilter F
  unfolding update center
  update_from_bbox bbox dt k = let (cx, cy) = center bbox in update cx cy dt k

  abbrev pub position : KalmanFilter F → F × F
  position k = (k.state.x, k.state.y)

  abbrev pub velocity : KalmanFilter F → F × F
  velocity k = (k.state.vx, k.state.vy)

  -- 1.0 / 30.0, the time of a frame.
  abbrev pub frame_time : F
  frame_time = f.div f.one (f.literal 30 0)
