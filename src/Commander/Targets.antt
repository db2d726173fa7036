-- ===== src/Commander/Targets.antt =====
-- In which states the commander holds a target, over every sequence of calls.
use autotargeting.Base.{
  ℕ, ◌≡◌, ◌≢◌, sym, ap, ◌⊎◌, Bool, true, false, Option, none, some, List, [], ◌∷◌, arith,
}
use autotargeting.Floats.{Float}
use autotargeting.Types.{
  SystemState, idle, armed, scanning, target_selected, tracking, tracking_degraded, lost, rth,
  FlightMode, RoiTarget,
}
use autotargeting.Settings.{CommanderConfig}
use autotargeting.Transform.{CameraParams}
use autotargeting.Fc.{FlightControllerAdapter}
use autotargeting.StateMachine
use autotargeting.StateMachine.{
  StateMachine, try_transition, force_transition, is_transition_allowed,
}
use autotargeting.RateLimiter
use autotargeting.Watchdogs.{WatchdogId, WatchdogAction, check_expired}
use autotargeting.AntiLoop.{CorrectionCommand, GuardDecision}
use autotargeting.Commander.{Commander, Readings, new}
use autotargeting.Commander.Control.{
  start_scanning, select_target, reset, feed_video_watchdog, process_expiry, process_expiries,
  process_watchdog_expiries, connect, disconnect, arm, disarm, set_flight_mode, set_roi,
  abort_internal,
}
use autotargeting.Commander.Update.{
  feed_loops, finish, send_correction_to_fc, answer, correct, follow, update,
}

-- The calls that the commander answers, with their readings of the clock.
pub data Call (F : Type 0) : Type 0 where
  connects : (now registered : ℕ) → Call F
  disconnects arms disarms scans resets : Call F
  selects : (target_id : ℕ) → Call F
  updates : Option (F × F) → Readings → Call F
  feeds_video processes_expiries aborts : (now : ℕ) → Call F
  sets_mode : FlightMode → Call F
  sets_roi : RoiTarget F → Call F

module _ {S F : Type 0} ⦃f : Float F⦄ ⦃fc : FlightControllerAdapter S F⦄ where
  unfoldable pub call : Commander S F → Call F → Commander S F
  call c (connects now registered) = (connect c now registered).0
  call c disconnects = (disconnect c).0
  call c arms = (arm c).0
  call c disarms = (disarm c).0
  call c scans = (start_scanning c).0
  call c resets = (reset c).0
  call c (selects target_id) = (select_target c target_id).0
  call c (updates offset r) = (update c offset r).0
  call c (feeds_video now) = feed_video_watchdog c now
  call c (processes_expiries now) = (process_watchdog_expiries c now).0
  call c (aborts now) = (abort_internal c now).0
  call c (sets_mode mode) = (set_flight_mode c mode).0
  call c (sets_roi roi) = (set_roi c roi).0

  unfoldable pub call_all : Commander S F → List (Call F) → Commander S F
  call_all c [] = c
  call_all c (x ∷ rest) = call_all (call c x) rest

-- Whether a state goes with a target or with none.
abbrev fits : SystemState → Option ℕ → Bool
fits idle none = true
fits armed none = true
fits scanning none = true
fits tracking _ = true
fits tracking_degraded _ = true
fits SystemState.abort _ = true
fits _ _ = false

abbrev all_fit : {S F : Type 0} → Option (Commander S F) → Bool
all_fit none = true
all_fit (some c) = fits c.state.state c.active_target_id

abbrev IsFitting : {S F : Type 0} → Commander S F → Type 0
IsFitting c = fits c.state.state c.active_target_id ≡ true

module _ {S F : Type 0} ⦃fc : FlightControllerAdapter S F⦄ where
  connect-IsFitting :
      (c : Commander S F) (now reg : ℕ) → IsFitting c → IsFitting (connect c now reg).0
  unfolding connect try_transition is_transition_allowed
  connect-IsFitting c now reg h = ground arith

  disconnect-IsFitting : (c : Commander S F) → IsFitting c → IsFitting (disconnect c).0
  unfolding disconnect
  disconnect-IsFitting c h = ground arith

  disarm-IsFitting : (c : Commander S F) → IsFitting c → IsFitting (disarm c).0
  unfolding disarm try_transition is_transition_allowed
  disarm-IsFitting c h = ground arith

  scan-IsFitting : (c : Commander S F) → IsFitting c → IsFitting (start_scanning c).0
  unfolding start_scanning try_transition is_transition_allowed
  scan-IsFitting c h = ground arith

  select-IsFitting : (c : Commander S F) (i : ℕ) → IsFitting c → IsFitting (select_target c i).0
  unfolding select_target try_transition is_transition_allowed
  select-IsFitting c i h = ground arith

  reset-IsFitting : (c : Commander S F) → IsFitting c → IsFitting (reset c).0
  unfolding reset try_transition is_transition_allowed
  reset-IsFitting c h = ground arith

  abort-IsFitting : (c : Commander S F) (now : ℕ) → IsFitting c → IsFitting (abort_internal c now).0
  unfolding abort_internal force_transition
  abort-IsFitting c now h = ground arith

  expiry-IsFitting :
      (c : Commander S F) (e : WatchdogId × WatchdogAction)
      → IsFitting c
      → IsFitting (process_expiry c e)
  unfolding process_expiry try_transition is_transition_allowed
  expiry-IsFitting c (id, action) h = ground arith

  expiries-IsFitting :
      (c : Commander S F) (es : List (WatchdogId × WatchdogAction))
      → IsFitting c
      → IsFitting (process_expiries c es)
  unfolding process_expiries
  expiries-IsFitting c [] h = h
  expiries-IsFitting c (e ∷ es) h =
      expiries-IsFitting (process_expiry c e) es (expiry-IsFitting c e h)

module _ {S F : Type 0} ⦃f : Float F⦄ ⦃fc : FlightControllerAdapter S F⦄ where
  send-IsFitting :
      (c : Commander S F) (cmd : CorrectionCommand F) (now : ℕ)
      → IsFitting c
      → IsFitting (send_correction_to_fc c cmd now).0
  unfolding send_correction_to_fc
  send-IsFitting c cmd now h = ground arith

  answer-IsFitting :
      (c : Commander S F) (d : GuardDecision F) (r : Readings)
      → IsFitting c
      → IsFitting (answer c d r).0
  unfolding answer finish try_transition is_transition_allowed
  answer-IsFitting c (GuardDecision.allow cut) r h = ground (arith, send-IsFitting c cut r.sent h)
  answer-IsFitting c GuardDecision.suppress r h = h
  answer-IsFitting c GuardDecision.degrade r h = ground arith
  answer-IsFitting c GuardDecision.abort r h = abort-IsFitting c r.sent h

  correct-IsFitting :
      (c : Commander S F) (offset : F × F) (r : Readings)
      → IsFitting c
      → IsFitting (correct c offset r).0
  unfolding correct
  correct-IsFitting c offset r h = answer-IsFitting _ _ r h

  update-IsFitting :
      (c : Commander S F) (offset : Option (F × F)) (r : Readings)
      → IsFitting c
      → IsFitting (update c offset r).0
  unfolding update follow finish
  update-IsFitting c none r h = ground arith
  update-IsFitting c (some offset) r h =
      ground (arith, correct-IsFitting (feed_loops c r) offset r h)

  call-IsFitting : (c : Commander S F) (x : Call F) → IsFitting c → IsFitting (call c x)
  unfolding call arm set_flight_mode set_roi process_watchdog_expiries feed_video_watchdog
  call-IsFitting c (connects now reg) h = connect-IsFitting c now reg h
  call-IsFitting c disconnects h = disconnect-IsFitting c h
  call-IsFitting c arms h = ground arith
  call-IsFitting c disarms h = disarm-IsFitting c h
  call-IsFitting c scans h = scan-IsFitting c h
  call-IsFitting c resets h = reset-IsFitting c h
  call-IsFitting c (selects i) h = select-IsFitting c i h
  call-IsFitting c (updates offset r) h = update-IsFitting c offset r h
  call-IsFitting c (feeds_video now) h = h
  call-IsFitting c (processes_expiries now) h =
      expiries-IsFitting c (check_expired c.watchdogs now) h
  call-IsFitting c (aborts now) h = abort-IsFitting c now h
  call-IsFitting c (sets_mode mode) h = ground arith
  call-IsFitting c (sets_roi roi) h = ground arith

  call_all-IsFitting :
      (c : Commander S F) (xs : List (Call F)) → IsFitting c → IsFitting (call_all c xs)
  unfolding call_all
  call_all-IsFitting c [] h = h
  call_all-IsFitting c (x ∷ xs) h = call_all-IsFitting (call c x) xs (call-IsFitting c x h)

-- The states of a commander, by whether it holds a target.
abbrev pub HoldsSafely : {S F : Type 0} → Commander S F → Type 0
HoldsSafely c =
    ((c.active_target_id ≡ none)
      ⊎ (c.state.state ≡ tracking)
      ⊎ (c.state.state ≡ tracking_degraded)
      ⊎ (c.state.state ≡ SystemState.abort))
    × (c.state.state ≢ target_selected)
    × (c.state.state ≢ lost)
    × (c.state.state ≢ rth)

fitting-HoldsSafely : {S F : Type 0} (c : Commander S F) → IsFitting c → HoldsSafely c
fitting-HoldsSafely c h = ground arith

module _ {S F : Type 0} ⦃f : Float F⦄ ⦃fc : FlightControllerAdapter S F⦄ where
  -- Whatever is called on a new commander, with whatever adapter, it holds a target only while it
  -- tracks, tracks in degraded mode, or has aborted; and it is never found in the states
  -- `target_selected`, `lost` and `rth`.
  pub call_all-HoldsSafely :
      (c : CommanderConfig F) (s : S) (camera : CameraParams F) (now : ℕ)
      (commander : Commander S F) (calls : List (Call F))
      → new c s camera now ≡ some commander
      → HoldsSafely (call_all commander calls)
  unfolding new RateLimiter.new StateMachine.new
  call_all-HoldsSafely c s camera now commander calls e =
      fitting-HoldsSafely (call_all commander calls)
        (call_all-IsFitting commander calls (sym (ap all_fit e)))
