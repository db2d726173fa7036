-- ===== src/Commander/Effects.antt =====
-- What the commander's methods do to the state, the target and the adapter, on every branch.
use autotargeting.Base.{
  ℕ, ◌≡◌, ◌≢◌, refl, ◌⊎◌, inl, inr, Bool, true, false, none, some, List, [], ◌∷◌, arith, Result, ok,
  err, if◌then◌else◌,
}
use autotargeting.Types.{
  SystemState, scanning, target_selected, tracking, tracking_degraded, rtl, state_eq,
}
use autotargeting.Fc.{FlightControllerAdapter, FcError}
use autotargeting.StateMachine.{invalid, try_transition, force_transition, is_transition_allowed}
use autotargeting.Watchdogs.{WatchdogId, WatchdogAction, check_expired}
use autotargeting.Commander.{Commander, CommanderError, fc_error, invalid_state, state_transition}
use autotargeting.Commander.Control.{
  select_target, selects_from, process_expiry, process_expiries, process_watchdog_expiries,
  abort_internal,
}

-- The error of `select_target`: that of the machine's table, or the commander's own.
abbrev pub refusal : SystemState → CommanderError
refusal s =
    if selects_from s
    then state_transition (invalid s target_selected)
    else invalid_state s scanning

-- Whether a report asks for degraded mode.
abbrev pub asks_degrade : List (WatchdogId × WatchdogAction) → Bool
asks_degrade [] = false
asks_degrade ((id, WatchdogAction.degrade) ∷ es) = true
asks_degrade ((id, WatchdogAction.abort) ∷ es) = asks_degrade es

Result-cases : {E A : Type 0} (r : Result E A) → ((a : A) × (r ≡ ok a)) ⊎ ((e : E) × (r ≡ err e))
Result-cases (ok a) = inl (a, refl)
Result-cases (err e) = inr (e, refl)

module _ {S F : Type 0} ⦃fc : FlightControllerAdapter S F⦄ where
  -- `abort` always brings the commander to the state `abort` and sends the mode RTL to the adapter,
  -- whatever the rate limiter would say. It succeeds exactly when the adapter accepts the mode, and
  -- forgets the target just then.
  pub abort_internal_rtl :
      (c : Commander S F) (now : ℕ)
      → let (c', result) = abort_internal c now in
        let (s', accepted) = fc.set_mode c.fc rtl in
        (c'.state.state ≡ SystemState.abort)
        × (c'.fc ≡ s')
        × (((accepted ≡ ok tt) × (result ≡ ok tt) × (c'.active_target_id ≡ none))
            ⊎ ((e : FcError) × (accepted ≡ err e)
                × (result ≡ err (fc_error e))
                × (c'.active_target_id ≡ c.active_target_id)))
  unfolding abort_internal force_transition
  abort_internal_rtl c now = elim (Result-cases (fc.set_mode c.fc rtl).1) [
    | inl (u, e) ↦ (ground arith, ground arith, inl (e, ground arith, ground arith))
    | inr (e, failed) ↦ (ground arith, ground arith, inr (e, failed, ground arith, ground arith))
  ]

module _ {S F : Type 0} where
  -- A target can be selected from `scanning` only: the commander then tracks it, after two
  -- transitions. From every other state the call is an error and changes nothing.
  pub select_target_scanning :
      (c : Commander S F) (target_id : ℕ)
      → let (c', result) = select_target c target_id in
        ((c.state.state ≡ scanning)
          × (result ≡ ok tt)
          × (c'.state.state ≡ tracking)
          × (c'.active_target_id ≡ some target_id)
          × (c'.fc ≡ c.fc))
        ⊎ ((c.state.state ≢ scanning) × (c' ≡ c) × (result ≡ err (refusal c.state.state)))
  unfolding select_target try_transition is_transition_allowed
  select_target_scanning c target_id = ground arith

  process_expiries_state :
      (c : Commander S F) (es : List (WatchdogId × WatchdogAction))
      → let c' = process_expiries c es in
        (c'.state.state ≡ (
          if state_eq c.state.state tracking
          then (if asks_degrade es then tracking_degraded else tracking)
          else c.state.state))
        × (c'.fc ≡ c.fc)
        × (c'.active_target_id ≡ c.active_target_id)
  unfolding process_expiries process_expiry try_transition is_transition_allowed
  process_expiries_state c [] = ground arith
  process_expiries_state c ((id, action) ∷ es) =
      ground (arith, process_expiries_state (process_expiry c (id, action)) es)

  -- `process_watchdog_expiries` reports every expired watchdog. A commander that tracks is in degraded
  -- mode afterwards exactly when an expired watchdog asks for it; no other state changes, and neither
  -- the adapter nor the target: an abort is left to the caller.
  pub process_watchdog_expiries_state :
      (c : Commander S F) (now : ℕ)
      → let (c', expired) = process_watchdog_expiries c now in
        (expired ≡ check_expired c.watchdogs now)
        × (c'.state.state ≡ (
            if state_eq c.state.state tracking
            then (if asks_degrade expired then tracking_degraded else tracking)
            else c.state.state))
        × (c'.fc ≡ c.fc)
        × (c'.active_target_id ≡ c.active_target_id)
  unfolding process_watchdog_expiries
  process_watchdog_expiries_state c now =
      let (state, fc, target) = process_expiries_state c (check_expired c.watchdogs now) in
      (refl, state, fc, target)
