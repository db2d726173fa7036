-- ===== src/Commander/Update.antt =====
-- auto-targeting/crates/commander/src/commander.rs: `update`, which every frame calls.
use autotargeting.Base.{ℕ, Bool, not, ◌||◌, Option, none, some, ok, if◌then◌else◌}
use autotargeting.Floats.{Float, clamp}
use autotargeting.Types.{SystemState, tracking, tracking_degraded, state_eq, PositionTargetNed}
use autotargeting.Settings.{CommanderConfig}
use autotargeting.Transform.{FrameOffset, offset_to_ned_target_with_attitude}
use autotargeting.Fc.{FlightControllerAdapter}
use autotargeting.Watchdogs.{inference_loop, tracking_loop, command_loop, feed, id_key}
use autotargeting.RateLimiter.{try_send}
use autotargeting.AntiLoop.{CorrectionCommand, GuardDecision, process}
use autotargeting.Commander.{Commander, Answer, Readings, attempt, with_fc, and_on}
use autotargeting.Commander.Control.{abort_internal}

abbrev pub is_following : SystemState → Bool
is_following s = state_eq s tracking || state_eq s tracking_degraded

module _ {S F : Type 0} where
  -- The end of `update`.
  unfoldable pub finish : Commander S F → Readings → Answer S F
  finish c r = (
    record c {
      watchdogs = feed c.watchdogs command_loop r.fed_command;
      last_command_at = some r.finished;
    },
    ok tt,
  )

  abbrev pub feed_loops : Commander S F → Readings → Commander S F
  feed_loops c r = record c {
    watchdogs = feed (feed c.watchdogs inference_loop r.fed_inference) tracking_loop r.fed_tracking;
  }

module _ {F : Type 0} ⦃f : Float F⦄ where
  unfoldable pub correction : CommanderConfig F → F × F → ℕ → CorrectionCommand F
  correction c (offset_x, offset_y) now = record {
    yaw_rate_dps = f.mul offset_x c.max_yaw_rate_dps;
    pitch_rate_dps = f.mul offset_y c.max_pitch_rate_dps;
    offset_x = offset_x;
    offset_y = offset_y;
    generated_at = now;
  }

module _ {S F : Type 0} ⦃f : Float F⦄ ⦃fc : FlightControllerAdapter S F⦄ where
  -- The target that a command asks of the autopilot at its attitude.
  unfoldable pub position_target : Commander S F → CorrectionCommand F → PositionTargetNed F
  position_target c cmd =
      let att = fc.attitude c.fc in
      let norm : FrameOffset F = record {
        x = clamp cmd.offset_x (f.neg f.one) f.one;
        y = clamp cmd.offset_y (f.neg f.one) f.one;
      } in
      let ned = offset_to_ned_target_with_attitude c.camera norm att.pitch att.yaw in
      record { north = f.nought; east = f.nought; down = f.nought; yaw = ned.yaw }

  unfoldable pub send_correction_to_fc : Commander S F → CorrectionCommand F → ℕ → Answer S F
  send_correction_to_fc c cmd now =
      let (limiter, go) = try_send c.rate_limiter now in
      let counted = record c { rate_limiter = limiter } in
      if not go
      then (counted, ok tt)
      else with_fc counted
          (fc.set_position_target_local_ned counted.fc (position_target counted cmd))

  -- The `match` on the guard's decision, and the rest of `update`.
  unfoldable pub answer : Commander S F → GuardDecision F → Readings → Answer S F
  answer c (GuardDecision.allow cut) r =
      and_on (send_correction_to_fc c cut r.sent) (λ c'. finish c' r)
  answer c GuardDecision.suppress r = finish c r
  answer c GuardDecision.degrade r = finish (attempt c tracking_degraded) r
  answer c GuardDecision.abort r = abort_internal c r.sent

  -- The branch with an active target, an offset and a state that follows.
  unfoldable pub correct : Commander S F → F × F → Readings → Answer S F
  correct c offset r =
      let (guard, decision) =
        process c.config c.anti_loop (correction c.config offset r.generated) r.guarded
          r.triggered in
      answer (record c { anti_loop = guard }) decision r

  -- The branch with an active target.
  unfoldable pub follow : Commander S F → Option (F × F) → Readings → Answer S F
  follow c none r = finish c r
  follow c (some offset) r = if is_following c.state.state then correct c offset r else finish c r

  unfoldable pub update : Commander S F → Option (F × F) → Readings → Answer S F
  update c target_offset r =
      let fed = feed_loops c r in
      elim fed.active_target_id [
        | none ↦ finish fed r
        | some target_id ↦ follow fed target_offset r
      ]
