-- ===== src/Fc/Mock.antt =====
-- auto-targeting/crates/fc-adapter/src/mock.rs: the adapter that records its commands. Its artificial
-- delay takes time only.
use autotargeting.Base.{
  ℕ, ◌-◌, ◌*◌, Bool, true, false, Option, none, some, List, [], ◌∷◌, ◌++◌, ok, err, if◌then◌else◌,
}
use autotargeting.Types.{
  FlightMode, unknown, stabilize, RoiTarget, PositionTargetNed, Attitude, GlobalPosition,
  HeartbeatStatus,
}
use autotargeting.Floats.{Float}
use autotargeting.Fc.{connection, FcStep, FlightControllerAdapter}

pub data RecordedCommand (F : Type 0) : Type 0 where
  set_roi : RoiTarget F → RecordedCommand F
  set_position_target_local_ned : PositionTargetNed F → RecordedCommand F
  set_mode : FlightMode → RecordedCommand F
  arm disarm : RecordedCommand F

pub record MockFcState (F : Type 0) : Type 0 where
  pub commands : List (RecordedCommand F)
  pub armed : Bool
  pub mode : FlightMode
  pub attitude : Attitude F
  pub global_position : Option (GlobalPosition F)
  pub connected : Bool
  pub last_heartbeat : Option ℕ

module _ {F : Type 0} where
  -- The guard and the log entry that every command has; `s'` is the state it leaves.
  unfoldable pub recorded :
      MockFcState F → RecordedCommand F → MockFcState F → FcStep (MockFcState F)
  recorded s command s' =
      if s.connected
      then (record s' { commands = s.commands ++ (command ∷ []) }, ok tt)
      else (s, err connection)

  unfoldable pub connect : MockFcState F → ℕ → FcStep (MockFcState F)
  connect s now =
      (record s { connected = true; last_heartbeat = some now; mode = stabilize }, ok tt)

  -- Without a heartbeat it was a minute ago.
  unfoldable pub heartbeat_status : MockFcState F → ℕ → HeartbeatStatus
  heartbeat_status s now = record {
    last_heartbeat = elim s.last_heartbeat [ none ↦ now - 60 * 1_000_000_000 | some t ↦ t ];
    armed = s.armed;
    mode = s.mode;
  }

  unfoldable pub simulate_attitude : MockFcState F → Attitude F → ℕ → MockFcState F
  simulate_attitude s attitude now = record s { attitude = attitude; last_heartbeat = some now }

  unfoldable pub simulate_heartbeat_loss : MockFcState F → MockFcState F
  simulate_heartbeat_loss s = record s { last_heartbeat = none }

  instance abbrev pub mock_fc : FlightControllerAdapter (MockFcState F) F
  mock_fc = record {
    set_roi = λ s roi. recorded s (set_roi roi) s;
    set_position_target_local_ned = λ s target. recorded s (set_position_target_local_ned target) s;
    set_mode = λ s mode. recorded s (set_mode mode) (record s { mode = mode });
    arm = λ s. recorded s arm (record s { armed = true });
    disarm = λ s. recorded s disarm (record s { armed = false });
    attitude = λ s. s.attitude;
    global_position = λ s. s.global_position;
    heartbeat_status = heartbeat_status;
    connect = connect;
    disconnect = λ s. (record s { connected = false }, ok tt);
  }

module _ {F : Type 0} ⦃f : Float F⦄ where
  abbrev level : Attitude F
  level = record {
    roll = f.nought;
    pitch = f.nought;
    yaw = f.nought;
    roll_rate = f.nought;
    pitch_rate = f.nought;
    yaw_rate = f.nought;
  }

  unfoldable pub new : MockFcState F
  new = record {
    commands = [];
    armed = false;
    mode = unknown;
    attitude = level;
    global_position = none;
    connected = false;
    last_heartbeat = none;
  }
