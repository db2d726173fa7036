-- ===== src/Commander.antt =====
-- auto-targeting/crates/commander/src/commander.rs: the commander on any adapter, its state and what
-- its methods share. A method on
-- `&mut self` gives the new commander and its result; each clock reading is an argument. An await is
-- a step of its caller, who owns the commander, so nothing runs in between. The detections of
-- `update` only reach the log.
pub mod Control
pub mod Update
pub mod Targets
pub mod Effects
pub mod Corrections
pub mod Health
mod Tests
use autotargeting.Base.{
  ℕ, max, ◌-◌, ◌^◌, Bool, true, false, not, ◌||◌, Option, none, some, List, [], ◌∷◌, Result, ok,
  err, if◌then◌else◌, map_option, Fallible,
}
use autotargeting.Floats.{Float, clamp}
use autotargeting.Types.{
  SystemState, idle, armed, scanning, target_selected, tracking, tracking_degraded, lost, state_eq,
  FlightMode, rtl, RoiTarget, PositionTargetNed, is_stale, age_ms,
}
use autotargeting.Settings.{CommanderConfig}
use autotargeting.Transform.{CameraParams, FrameOffset, offset_to_ned_target_with_attitude}
use autotargeting.Fc.{FcError, FcStep, FlightControllerAdapter}
use autotargeting.StateMachine
use autotargeting.StateMachine.{
  StateTransitionError, StateMachine, try_transition, force_transition,
}
use autotargeting.Watchdogs
use autotargeting.Watchdogs.{
  WatchdogId, video_loop, inference_loop, tracking_loop, command_loop, fc_heartbeat, WatchdogAction,
  WatchdogRegistry, WatchdogSnapshot, WatchdogConfig, from_millis, register, feed, check_expired,
  note_expiry_processed, id_key,
}
use autotargeting.RateLimiter
use autotargeting.RateLimiter.{CommandRateLimiter, try_send, force_send}
use autotargeting.AntiLoop
use autotargeting.AntiLoop.{
  CorrectionCommand, GuardDecision, AntiLoopState, AntiLoopSnapshot, process,
}

pub data CommanderError : Type 0 where
  state_transition : StateTransitionError → CommanderError
  fc_error : FcError → CommanderError
  not_connected not_armed : CommanderError
  invalid_state : (current expected : SystemState) → CommanderError
  no_active_target internal : CommanderError

pub record Commander (S F : Type 0) : Type 0 where
  pub state : StateMachine
  pub watchdogs : WatchdogRegistry
  pub anti_loop : AntiLoopState
  pub fc : S
  pub rate_limiter : CommandRateLimiter
  pub camera : CameraParams F
  pub config : CommanderConfig F
  pub active_target_id : Option ℕ
  pub last_command_at : Option ℕ
  pub connected : Bool

-- What a method returns.
abbrev pub Answer : Type 0 → Type 0 → Type 0
Answer S F = Commander S F × Result CommanderError (Unit {0})

-- The readings of the clock in a call of `update`, in their order.
pub record Readings : Type 0 where
  pub fed_inference : ℕ
  pub fed_tracking : ℕ
  pub generated : ℕ
  pub guarded : ℕ
  pub triggered : ℕ
  pub sent : ℕ
  pub fed_command : ℕ
  pub finished : ℕ

abbrev pub watch : WatchdogId → ℕ → WatchdogAction → ℕ → WatchdogRegistry → WatchdogRegistry
watch id ms action now inner =
    register inner id (record { timeout = from_millis ms; on_expiry = action }) now

-- The four watchdogs of `new`.
unfoldable pub default_watchdogs : {F : Type 0} → CommanderConfig F → ℕ → WatchdogRegistry
unfolding register
default_watchdogs c now = watch command_loop c.command_loop_wdt_ms WatchdogAction.abort now (
    watch tracking_loop c.tracking_loop_wdt_ms WatchdogAction.degrade now (
      watch inference_loop c.inference_loop_wdt_ms WatchdogAction.degrade now
        (watch video_loop c.video_loop_wdt_ms WatchdogAction.degrade now Watchdogs.new)))

-- `camera` stands for the default camera; nothing, if the rate of the limiter were refused.
unfoldable pub new :
    {S F : Type 0} → CommanderConfig F → S → CameraParams F → ℕ → Option (Commander S F)
unfolding default_watchdogs
new c fc camera now =
    map_option
      (λ limiter. record {
        state = StateMachine.new idle;
        watchdogs = default_watchdogs c now;
        anti_loop = AntiLoop.new;
        fc = fc;
        rate_limiter = limiter;
        camera = camera;
        config = c;
        active_target_id = none;
        last_command_at = none;
        connected = false;
      })
      (RateLimiter.new 10)

module _ {S F : Type 0} where
  -- `self.state.lock().try_transition(to)?`.
  abbrev pub request : Commander S F → SystemState → Answer S F
  request c to =
      let (sm, result) = try_transition c.state to in
      (record c { state = sm }, elim result [ ok _ ↦ ok tt | err e ↦ err (state_transition e) ])

  -- `let _ = self.state.lock().try_transition(to)`.
  abbrev pub attempt : Commander S F → SystemState → Commander S F
  attempt c to = record c { state = (try_transition c.state to).0 }

  -- A command to the adapter, with `?`.
  abbrev pub with_fc : Commander S F → FcStep S → Answer S F
  with_fc c (s, result) =
      (record c { fc = s }, elim result [ ok _ ↦ ok tt | err e ↦ err (fc_error e) ])

  abbrev pub forget_target : Commander S F → Commander S F
  forget_target c = record c { active_target_id = none }

  -- `?`: the rest of a method, where the first part succeeded.
  abbrev pub and_on : Answer S F → (Commander S F → Answer S F) → Answer S F
  and_on (c, ok _) next = next c
  and_on (c, err e) next = (c, err e)

  abbrev pub if_connected : Commander S F → Answer S F → Answer S F
  if_connected c answer = if not c.connected then (c, err not_connected) else answer
