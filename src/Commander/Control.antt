-- ===== src/Commander/Control.antt =====
-- auto-targeting/crates/commander/src/commander.rs: every method but `update`.
use autotargeting.Base.{ℕ, max, Bool, true, false, not, some, List, [], ◌∷◌, ok, err, if◌then◌else◌}
use autotargeting.Types.{
  SystemState, idle, armed, scanning, target_selected, tracking, tracking_degraded, lost, state_eq,
  FlightMode, rtl, RoiTarget,
}
use autotargeting.Fc.{FlightControllerAdapter}
use autotargeting.StateMachine.{force_transition}
use autotargeting.Watchdogs.{
  WatchdogId, video_loop, fc_heartbeat, WatchdogAction, feed, check_expired, note_expiry_processed,
  id_key,
}
use autotargeting.RateLimiter.{force_send}
use autotargeting.Commander.{
  Commander, Answer, invalid_state, request, attempt, with_fc, forget_target, and_on, if_connected,
  watch,
}

abbrev pub selects_from : SystemState → Bool
selects_from scanning = true
selects_from tracking = true
selects_from tracking_degraded = true
selects_from lost = true
selects_from _ = false

module _ {S F : Type 0} where
  unfoldable pub start_scanning : Commander S F → Answer S F
  start_scanning c = and_on (request c scanning) (λ c'. (forget_target c', ok tt))

  unfoldable pub select_target : Commander S F → ℕ → Answer S F
  select_target c target_id =
      if selects_from c.state.state
      then and_on (request c target_selected) (λ c'.
        and_on (request c' tracking)
          (λ c''. (record c'' { active_target_id = some target_id }, ok tt)))
      else (c, err (invalid_state c.state.state scanning))

  unfoldable pub reset : Commander S F → Answer S F
  reset c =
      if not (state_eq c.state.state SystemState.abort)
      then (c, err (invalid_state c.state.state SystemState.abort))
      else and_on (request c idle) (λ c'. (forget_target c', ok tt))

  unfoldable pub feed_video_watchdog : Commander S F → ℕ → Commander S F
  feed_video_watchdog c now = record c { watchdogs = feed c.watchdogs video_loop now }

  -- The body of the loop of `process_watchdog_expiries`.
  unfoldable pub process_expiry : Commander S F → WatchdogId × WatchdogAction → Commander S F
  process_expiry c (id, action) =
      let noted = record c { watchdogs = note_expiry_processed c.watchdogs id } in
      elim action [
        | WatchdogAction.degrade ↦
            if state_eq noted.state.state tracking then attempt noted tracking_degraded else noted
        | WatchdogAction.abort ↦ noted
      ]

  unfoldable pub process_expiries :
      Commander S F → List (WatchdogId × WatchdogAction) → Commander S F
  process_expiries c [] = c
  process_expiries c (e ∷ rest) = process_expiries (process_expiry c e) rest

  unfoldable pub process_watchdog_expiries :
      Commander S F → ℕ → Commander S F × List (WatchdogId × WatchdogAction)
  process_watchdog_expiries c now =
      let expired = check_expired c.watchdogs now in (process_expiries c expired, expired)

module _ {S F : Type 0} ⦃fc : FlightControllerAdapter S F⦄ where
  unfoldable pub connect : Commander S F → ℕ → ℕ → Answer S F
  connect c now registered = and_on (with_fc c (fc.connect c.fc now)) (λ c'.
      request
        (record c' {
          connected = true;
          watchdogs =
              watch fc_heartbeat (max c'.config.fc_heartbeat_wdt_ms 1000) WatchdogAction.abort
                registered c'.watchdogs;
        })
        armed)

  unfoldable pub disconnect : Commander S F → Answer S F
  disconnect c =
      and_on (with_fc c (fc.disconnect c.fc)) (λ c'. (record c' { connected = false }, ok tt))

  unfoldable pub arm : Commander S F → Answer S F
  arm c = if_connected c (with_fc c (fc.arm c.fc))

  unfoldable pub disarm : Commander S F → Answer S F
  disarm c =
      if_connected c
        (and_on (with_fc c (fc.disarm c.fc)) (λ c'. (forget_target (attempt c' idle), ok tt)))

  unfoldable pub set_flight_mode : Commander S F → FlightMode → Answer S F
  set_flight_mode c mode = if_connected c (with_fc c (fc.set_mode c.fc mode))

  unfoldable pub set_roi : Commander S F → RoiTarget F → Answer S F
  set_roi c roi = if_connected c (with_fc c (fc.set_roi c.fc roi))

  unfoldable pub abort_internal : Commander S F → ℕ → Answer S F
  abort_internal c now =
      let forced = record c {
        state = force_transition c.state SystemState.abort;
        rate_limiter = force_send c.rate_limiter now;
      } in
      and_on (with_fc forced (fc.set_mode forced.fc rtl)) (λ c'. (forget_target c', ok tt))
