-- ===== src/Settings.antt =====
-- The commander's section of the configuration, auto-targeting/crates/common/src/config.rs.
pub mod Defaults
use autotargeting.Base.{ℕ}

pub record CommanderConfig (F : Type 0) : Type 0 where
  pub video_loop_wdt_ms : ℕ  -- u64, as the four below
  pub inference_loop_wdt_ms : ℕ
  pub tracking_loop_wdt_ms : ℕ
  pub command_loop_wdt_ms : ℕ
  pub fc_heartbeat_wdt_ms : ℕ
  pub deadband_fraction : F
  pub loss_hysteresis_ms : ℕ  -- u64
  pub max_yaw_rate_dps : F
  pub max_pitch_rate_dps : F
  pub max_offset_fraction : F
  pub oscillation_window : ℕ  -- usize
  pub oscillation_threshold : F
  pub oscillation_abort_count : ℕ  -- u32
