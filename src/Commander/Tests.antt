-- ===== src/Commander/Tests.antt =====
-- A commander on the recording adapter, and the theorems at it.
use autotargeting.Base.{◌≡◌, ◌≢◌, ◌⊎◌, refl, true, false, none, some, List, [], ◌∷◌, ok, err}
use autotargeting.Floats.Milli.{Milli, num, milli_float, Milli-IsIeee}
use autotargeting.Types.{SystemState, scanning, tracking, rtl}
use autotargeting.Settings.Defaults.{default_config}
use autotargeting.Transform.{CameraParams, offset_to_ned_target_with_attitude}
use autotargeting.Fc.{FcError}
use autotargeting.Fc.Mock
use autotargeting.Fc.Mock.{MockFcState, RecordedCommand, mock_fc}
use autotargeting.StateMachine
use autotargeting.StateMachine.{StateMachine}
use autotargeting.RateLimiter
use autotargeting.RateLimiter.{CommandRateLimiter, try_send, force_send}
use autotargeting.AntiLoop
use autotargeting.AntiLoop.{process, admit, clipped, is_oscillating}
use autotargeting.Commander.{Commander, Readings, fc_error, new, default_watchdogs}
use autotargeting.Commander.Control.{select_target, abort_internal}
use autotargeting.Commander.Update.{
  update, follow, correct, answer, finish, correction, send_correction_to_fc, position_target,
}
use autotargeting.Commander.Targets.{
  Call, connects, arms, scans, selects, updates, call_all, HoldsSafely, call_all-HoldsSafely,
}
use autotargeting.Commander.Effects.{abort_internal_rtl, select_target_scanning, refusal}
use autotargeting.Commander.Corrections.{IsSent, update-IsSent}

-- 60 and 34 degrees.
abbrev camera : CameraParams Milli
camera = record { hfov_rad = num false 1_047; vfov_rad = num false 593; width = 1280; height = 720 }

abbrev fresh : Commander (MockFcState Milli) Milli
fresh = record {
  state = StateMachine.new SystemState.idle;
  watchdogs = default_watchdogs default_config 0;
  anti_loop = AntiLoop.new;
  fc = Mock.new;
  rate_limiter = record {
    min_interval = 100_000_000;
    last_sent = none;
    dropped_count = 0;
    sent_count = 0;
  };
  camera = camera;
  config = default_config;
  active_target_id = none;
  last_command_at = none;
  connected = false;
}

new-fresh : new default_config Mock.new camera 0 ≡ some fresh
unfolding new RateLimiter.new
new-fresh = refl

abbrev readings : Readings
readings = record {
  fed_inference = 10;
  fed_tracking = 11;
  generated = 12;
  guarded = 13;
  triggered = 14;
  sent = 15;
  fed_command = 16;
  finished = 17;
}

-- A target a tenth of the frame to the right is followed, then everything is aborted.
abbrev flight : List (Call Milli)
flight =
    connects 1 2
    ∷ arms
    ∷ scans
    ∷ selects 5
    ∷ updates (some (num false 100, num false 0)) readings
    ∷ []

abbrev in_flight : Commander (MockFcState Milli) Milli
in_flight = call_all fresh flight

call_all-HoldsSafely_example : HoldsSafely (call_all fresh flight)
call_all-HoldsSafely_example =
    call_all-HoldsSafely default_config Mock.new camera 0 fresh flight new-fresh

abbrev scanned : Commander (MockFcState Milli) Milli
scanned = call_all fresh (connects 1 2 ∷ scans ∷ [])

-- The target 5 is tracked.
abbrev tracked : Commander (MockFcState Milli) Milli
tracked = record fresh {
  state = record { state = tracking; transition_count = 4 };
  fc = (mock_fc.connect Mock.new 1).0;
  active_target_id = some 5;
  connected = true;
}

-- Half of the field of view is 0.523, a tenth of it 0.052.
sends_target :
    (update tracked (some (num false 100, num false 0)) readings).0.fc.commands
    ≡ RecordedCommand.set_position_target_local_ned
        (record { north = num false 0; east = num false 0; down = num false 0; yaw = num false 52 })
      ∷ []
unfolding update follow correct answer finish process correction send_correction_to_fc try_send
    force_send Mock.recorded Mock.connect Mock.new admit clipped position_target
    offset_to_ned_target_with_attitude AntiLoop.new is_oscillating
sends_target = refl

abort_internal_rtl_example :
    let (c', result) = abort_internal tracked 20 in
    let (s', accepted) = mock_fc.set_mode tracked.fc rtl in
    (c'.state.state ≡ SystemState.abort)
    × (c'.fc ≡ s')
    × (((accepted ≡ ok tt) × (result ≡ ok tt) × (c'.active_target_id ≡ none))
        ⊎ ((e : FcError) × (accepted ≡ err e)
            × (result ≡ err (fc_error e))
            × (c'.active_target_id ≡ tracked.active_target_id)))
abort_internal_rtl_example = abort_internal_rtl tracked 20

select_target_scanning_example :
    let (c', result) = select_target scanned 5 in
    ((scanned.state.state ≡ scanning)
      × (result ≡ ok tt)
      × (c'.state.state ≡ tracking)
      × (c'.active_target_id ≡ some 5)
      × (c'.fc ≡ scanned.fc))
    ⊎ ((scanned.state.state ≢ scanning)
        × (c' ≡ scanned)
        × (result ≡ err (refusal scanned.state.state)))
select_target_scanning_example = select_target_scanning scanned 5

update-IsSent_example :
    IsSent tracked readings (update tracked (some (num false 100, num false 0)) readings).0
update-IsSent_example =
    update-IsSent Milli-IsIeee tracked (some (num false 100, num false 0)) readings
      (record { yaw = refl; pitch = refl; offset = refl })
