-- ===== src/Commander/Health.antt =====
-- auto-targeting/crates/commander/src/commander.rs: the snapshot for diagnostics.
use autotargeting.Base.{ℕ, ◌-◌, ◌/◌, ◌^◌, Bool, Option, none, some, List, u64}
use autotargeting.Types.{SystemState, FlightMode, is_stale, nanos_per_milli}
use autotargeting.Fc.{FlightControllerAdapter}
use autotargeting.Watchdogs
use autotargeting.Watchdogs.{WatchdogId, WatchdogSnapshot}
use autotargeting.AntiLoop
use autotargeting.AntiLoop.{AntiLoopSnapshot}
use autotargeting.Commander.{Commander}

pub record CommanderHealth : Type 0 where
  pub state : SystemState
  pub transitions : ℕ
  pub connected : Bool
  pub armed : Bool
  pub fc_mode : FlightMode
  pub fc_heartbeat_stale : Bool
  pub active_target_id : Option ℕ
  pub watchdogs : List (WatchdogId × WatchdogSnapshot)
  pub anti_loop : AntiLoopSnapshot
  pub rate_limiter_sent : ℕ
  pub rate_limiter_dropped : ℕ
  pub last_command_age_ms : ℕ

-- All readings of the clock are `now`.
unfoldable pub health_snapshot :
    {S F : Type 0} ⦃fc : FlightControllerAdapter S F⦄ → Commander S F → ℕ → CommanderHealth
health_snapshot ⦃fc⦄ c now =
    let hb = fc.heartbeat_status c.fc now in
    record {
      state = c.state.state;
      transitions = c.state.transition_count;
      connected = c.connected;
      armed = hb.armed;
      fc_mode = hb.mode;
      fc_heartbeat_stale = is_stale hb now 1000;
      active_target_id = c.active_target_id;
      watchdogs = Watchdogs.snapshot c.watchdogs now;
      anti_loop = AntiLoop.snapshot c.anti_loop;
      rate_limiter_sent = c.rate_limiter.sent_count;
      rate_limiter_dropped = c.rate_limiter.dropped_count;
      last_command_age_ms = elim c.last_command_at [
        | none ↦ 2 ^ 64 - 1
        | some t ↦ u64 ((now - t) / nanos_per_milli)
      ];
    }
