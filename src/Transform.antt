-- ===== src/Transform.antt =====
-- auto-targeting/crates/commander/src/transform.rs: from a place in the frame to a yaw of the drone.
use autotargeting.Base.{ℕ}
use autotargeting.Floats.{Float}

pub record CameraParams (F : Type 0) : Type 0 where
  pub hfov_rad : F
  pub vfov_rad : F
  pub width : ℕ  -- u32
  pub height : ℕ  -- u32

pub record FrameOffset (F : Type 0) : Type 0 where
  pub x : F
  pub y : F

pub record NedTarget (F : Type 0) : Type 0 where
  pub yaw : F
  pub yaw_rate : F

module _ {F : Type 0} ⦃f : Float F⦄ where
  unfoldable pub offset_to_angle : CameraParams F → FrameOffset F → F × F
  offset_to_angle camera offset =
      (f.mul offset.x (f.div camera.hfov_rad f.two), f.mul offset.y (f.div camera.vfov_rad f.two))

  -- The pitch has no influence.
  unfoldable pub offset_to_ned_target_with_attitude :
      CameraParams F → FrameOffset F → F → F → NedTarget F
  unfolding offset_to_angle
  offset_to_ned_target_with_attitude camera offset drone_pitch drone_yaw =
      let (yaw_angle, pitch_angle) = offset_to_angle camera offset in
      record { yaw = f.add drone_yaw yaw_angle; yaw_rate = f.nought }
