-- ===== src/BusRunner/Tests.antt =====
-- The loop at work, on a commander with the recording adapter.
use autotargeting.Base.{◌≡◌, ◌⊎◌, refl, true, false, none, some, [], ◌∷◌}
use autotargeting.Floats.Milli.{Milli, num, milli_float}
use autotargeting.Types.{idle, tracking, rtl}
use autotargeting.Settings.Defaults.{default_config}
use autotargeting.Transform.{CameraParams}
use autotargeting.Fc.Mock
use autotargeting.Fc.Mock.{MockFcState, mock_fc}
use autotargeting.StateMachine
use autotargeting.AntiLoop
use autotargeting.Watchdogs.{command_loop, check_expired}
use autotargeting.Commander.{Commander, Readings, default_watchdogs}
use autotargeting.Commander.Control.{feed_video_watchdog}
use autotargeting.BusRunner.{
  BusConfig, BusStats, Arrival, Tick, track_budget, feed_one, drain, hear, asks_abort, tick,
}
use autotargeting.BusRunner.Idle.{run, run_idle, tick_aborts}

abbrev camera : CameraParams Milli
camera = record { hfov_rad = num false 1_047; vfov_rad = num false 593; width = 1280; height = 720 }

abbrev resting : Commander (MockFcState Milli) Milli
resting = record {
  state = StateMachine.new idle;
  watchdogs = default_watchdogs default_config 0;
  anti_loop = AntiLoop.new;
  fc = (mock_fc.connect Mock.new 1).0;
  rate_limiter = record {
    min_interval = 100_000_000;
    last_sent = none;
    dropped_count = 0;
    sent_count = 0;
  };
  camera = camera;
  config = default_config;
  active_target_id = none;
  last_command_at = none;
  connected = true;
}

abbrev following : Commander (MockFcState Milli) Milli
following = record resting {
  state = record { state = tracking; transition_count = 4 };
  active_target_id = some 5;
}

abbrev settings : BusConfig
settings = record { frame_width = 640; frame_height = 480; max_track_misses = 15 }

abbrev no_stats : BusStats
no_stats = record {
  tracks_received = 0;
  telemetry_received = 0;
  corrections_sent = 0;
  corrections_suppressed = 0;
}

abbrev readings : Readings
readings = record {
  fed_inference = 10;
  fed_tracking = 11;
  generated = 12;
  guarded = 13;
  triggered = 14;
  sent = 15;
  fed_command = 16;
  finished = 17;
}

abbrev seen : Arrival
seen = (
  record { track_id = 5; bbox = record { x = 295; y = 200; width = 50; height = 80 }; misses = 0 },
  record { before = 9; updated = readings; after = 18 },
)

-- The check comes a second after the loops were fed.
abbrev late : Tick
late = record {
  telemetry = true;
  telemetry_at = 8;
  tracks = seen ∷ [];
  fed = 20;
  checked = 1_000_000_020;
  aborted = 1_000_000_021;
}

run_idle_example : (run settings (late ∷ late ∷ []) (resting, no_stats)).0.state.state ≡ idle
unfolding StateMachine.new
run_idle_example = run_idle settings (late ∷ late ∷ []) resting no_stats refl

tick_aborts_example :
    let (drained, stats') =
      (drain settings track_budget (seen ∷ []) (hear late (following, no_stats))).0 in
    let fed = feed_video_watchdog (feed_one command_loop 20 drained) 20 in
    let expired = check_expired fed.watchdogs 1_000_000_020 in
    let c' = (tick settings late (following, no_stats)).0.0 in
    ((asks_abort expired ≡ true)
      × (c'.state.state ≡ idle)
      × (c'.fc ≡ (mock_fc.set_mode drained.fc rtl).0))
    ⊎ ((asks_abort expired ≡ false) × (c'.fc ≡ drained.fc))
tick_aborts_example = tick_aborts settings late following no_stats
