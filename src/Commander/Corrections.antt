-- ===== src/Commander/Corrections.antt =====
-- What `update` sends to the adapter.
use autotargeting.Base.{
  ◌≡◌, refl, ◌⊎◌, inl, inr, true, Option, none, some, arith, Bool-cases, if◌then◌else◌,
}
use autotargeting.Floats.{Float, IsIeee}
use autotargeting.Types.{SystemState, rtl}
use autotargeting.Fc.{FlightControllerAdapter}
use autotargeting.StateMachine.{force_transition}
use autotargeting.Watchdogs.{WatchdogRegistry}
use autotargeting.RateLimiter.{try_send}
use autotargeting.AntiLoop.{CorrectionCommand, GuardDecision, AntiLoopState, process}
use autotargeting.AntiLoop.Bounds.{IsSane, IsWithin, process-IsWithin}
use autotargeting.Commander.{Commander, Answer, Readings}
use autotargeting.Commander.Control.{abort_internal}
use autotargeting.Commander.Update.{
  feed_loops, finish, position_target, send_correction_to_fc, answer, correct, correction, follow,
  update, is_following,
}

module _ {S F : Type 0} ⦃f : Float F⦄ ⦃fc : FlightControllerAdapter S F⦄ where
  -- What a step to `c'` with the clock reading `r.sent` sent: nothing, one position target for a
  -- command, or the mode RTL with the transition to `abort`.
  pub data IsSent (c : Commander S F) (r : Readings) (c' : Commander S F) : Type 0 where
    nothing : c'.fc ≡ c.fc → IsSent c r c'
    target :
        (cmd : CorrectionCommand F)
        → is_following c.state.state ≡ true
        → IsWithin c.config cmd
        → (try_send c.rate_limiter r.sent).1 ≡ true
        → c'.fc ≡ (fc.set_position_target_local_ned c.fc (position_target c cmd)).0
        → IsSent c r c'
    return_home :
        is_following c.state.state ≡ true
        → c'.state.state ≡ SystemState.abort
        → c'.fc ≡ (fc.set_mode c.fc rtl).0
        → IsSent c r c'

  send-fc :
      (c : Commander S F) (cmd : CorrectionCommand F) (r : Readings)
      → let sent = (answer c (GuardDecision.allow cmd) r).0.fc in
        (sent ≡ c.fc)
        ⊎ (((try_send c.rate_limiter r.sent).1 ≡ true)
            × (sent ≡ (fc.set_position_target_local_ned c.fc (position_target c cmd)).0))
  unfolding answer send_correction_to_fc finish position_target
  send-fc c cmd r = ground arith

  abort-fc :
      (c : Commander S F) (r : Readings)
      → let c' = (answer c GuardDecision.abort r).0 in
        (c'.state.state ≡ SystemState.abort) × (c'.fc ≡ (fc.set_mode c.fc rtl).0)
  unfolding answer abort_internal force_transition
  abort-fc c r = ground arith

  quiet-fc :
      (c : Commander S F) (r : Readings)
      → ((answer c GuardDecision.suppress r).0.fc ≡ c.fc)
        × ((answer c GuardDecision.degrade r).0.fc ≡ c.fc)
  unfolding answer finish
  quiet-fc c r = (refl, refl)

  answer-IsSent :
      (c : Commander S F) (d : GuardDecision F) (r : Readings)
      → is_following c.state.state ≡ true
      → ((cut : CorrectionCommand F) → d ≡ GuardDecision.allow cut → IsWithin c.config cut)
      → IsSent c r (answer c d r).0
  answer-IsSent c (GuardDecision.allow cut) r follows within = elim (send-fc c cut r) [
    | inl same ↦ nothing same
    | inr (go, sent) ↦ target cut follows (within cut refl) go sent
  ]
  answer-IsSent c GuardDecision.suppress r follows within = nothing (quiet-fc c r).0
  answer-IsSent c GuardDecision.degrade r follows within = nothing (quiet-fc c r).1
  answer-IsSent c GuardDecision.abort r follows within =
      let (aborted, sent) = abort-fc c r in return_home follows aborted sent

  -- The guard and the watchdogs have no part in what is sent.
  IsSent-elsewhere :
      (c : Commander S F) (guard : AntiLoopState) (watchdogs : WatchdogRegistry) (r : Readings)
      (c' : Commander S F)
      → IsSent (record c { anti_loop = guard; watchdogs = watchdogs }) r c'
      → IsSent c r c'
  unfolding position_target
  IsSent-elsewhere c guard watchdogs r c' (nothing same) = nothing same
  IsSent-elsewhere c guard watchdogs r c' (target cmd follows within go sent) =
      target cmd follows within go sent
  IsSent-elsewhere c guard watchdogs r c' (return_home follows aborted sent) =
      return_home follows aborted sent

  correct-IsSent :
      (laws : IsIeee F) (c : Commander S F) (offset : F × F) (r : Readings)
      → IsSane c.config
      → is_following c.state.state ≡ true
      → IsSent c r (correct c offset r).0
  unfolding correct
  correct-IsSent laws c offset r sane follows =
      let cmd = correction c.config offset r.generated in
      let (guard, d) = process c.config c.anti_loop cmd r.guarded r.triggered in
      IsSent-elsewhere c guard c.watchdogs r (correct c offset r).0 (
        answer-IsSent (record c { anti_loop = guard }) d r follows
          (λ cut e.
            process-IsWithin laws c.config c.anti_loop cmd cut r.guarded r.triggered sane e))

  followed-IsSent :
      (laws : IsIeee F) (c : Commander S F) (offset : F × F) (r : Readings)
      → IsSane c.config
      → IsSent c r (if is_following c.state.state then correct c offset r else finish c r).0
  unfolding finish
  followed-IsSent laws c offset r sane = elim (Bool-cases (is_following c.state.state)) [
    | inl e ↦ rw e (correct-IsSent laws c offset r sane e)
    | inr e ↦ rw e (nothing refl)
  ]

  follow-IsSent :
      (laws : IsIeee F) (c : Commander S F) (offset : Option (F × F)) (r : Readings)
      → IsSane c.config
      → IsSent c r (follow c offset r).0
  unfolding follow finish
  follow-IsSent laws c none r sane = nothing refl
  follow-IsSent laws c (some o) r sane = followed-IsSent laws c o r sane

  -- An `update` sends at most one thing to the adapter, and only in a state that follows a target: a
  -- position target for a command within the configured limits, where the rate limiter lets it
  -- through, or the mode RTL, and then the commander has aborted. The configured limits are not
  -- negative, and floats follow IEEE 754.
  pub update-IsSent :
      (laws : IsIeee F) (c : Commander S F) (offset : Option (F × F)) (r : Readings)
      → IsSane c.config
      → IsSent c r (update c offset r).0
  unfolding update finish
  update-IsSent laws c offset r sane =
      let fed = feed_loops c r in
      elim c.active_target_id
        as (λ a.
          IsSent c r
            (elim a as (λ _. Answer S F) [
              | none ↦ finish fed r
              | some i ↦ follow fed offset r
            ]).0) [
              | none ↦ nothing refl
              | some i ↦
                  IsSent-elsewhere c c.anti_loop fed.watchdogs r (follow fed offset r).0
                    (follow-IsSent laws fed offset r sane)
            ]
