-- ===== src/Settings/Defaults.antt =====
-- The default configuration of the commander, auto-targeting/crates/common/src/config.rs, on numbers
-- with three decimals.
use autotargeting.Base.{false}
use autotargeting.Floats.Milli.{Milli, num}
use autotargeting.Settings.{CommanderConfig}

abbrev pub default_config : CommanderConfig Milli
default_config = record {
  video_loop_wdt_ms = 100;
  inference_loop_wdt_ms = 200;
  tracking_loop_wdt_ms = 50;
  command_loop_wdt_ms = 100;
  fc_heartbeat_wdt_ms = 1000;
  deadband_fraction = num false 50;
  loss_hysteresis_ms = 500;
  max_yaw_rate_dps = num false 30_000;
  max_pitch_rate_dps = num false 15_000;
  max_offset_fraction = num false 300;
  oscillation_window = 30;
  oscillation_threshold = num false 500;
  oscillation_abort_count = 3;
}
