-- ===== src/Fc.antt =====
-- auto-targeting/crates/fc-adapter/src/traits.rs: the interface to the flight controller. An adapter
-- with the state `S` is an instance; its clock reading is an argument where it needs one.
pub mod Mock
use autotargeting.Base.{ℕ, Option, Bool, Result}
use autotargeting.Types.{
  FlightMode, RoiTarget, PositionTargetNed, Attitude, GlobalPosition, HeartbeatStatus, is_stale,
}

pub data FcError : Type 0 where
  connection command_rejected : FcError
  heartbeat_lost : (last_seen_ms : ℕ) → FcError
  timeout not_armed : FcError
  unsupported_mode : FlightMode → FcError
  internal : FcError

-- A command: the new state, and its outcome.
abbrev pub FcStep : Type 0 → Type 0
FcStep S = S × Result FcError (Unit {0})

pub record FlightControllerAdapter (S F : Type 0) : Type 0 where
  pub set_roi : S → RoiTarget F → FcStep S
  pub set_position_target_local_ned : S → PositionTargetNed F → FcStep S
  pub set_mode : S → FlightMode → FcStep S
  pub arm : S → FcStep S
  pub disarm : S → FcStep S
  pub attitude : S → Attitude F
  pub global_position : S → Option (GlobalPosition F)
  pub heartbeat_status : S → ℕ → HeartbeatStatus
  pub connect : S → ℕ → FcStep S
  pub disconnect : S → FcStep S

-- The method that the trait itself defines.
unfoldable pub is_heartbeat_stale :
    {S : Type 0} (F : Type 0) ⦃fc : FlightControllerAdapter S F⦄ → S → ℕ → ℕ → Bool
is_heartbeat_stale F ⦃fc⦄ s now timeout_ms = is_stale (fc.heartbeat_status s now) now timeout_ms
