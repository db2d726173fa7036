-- ===== src/AntiLoop/Tests.antt =====
-- The guard on numbers with three decimals, and its theorems at them.
use autotargeting.Base.{ℕ, ◌+◌, ◌≡◌, ◌≢◌, refl, inl, true, false, [], ◌∷◌, arith, All}
use autotargeting.Floats.Milli.{Milli, not_a_number, num, milli_float, Milli-IsIeee}
use autotargeting.Settings.{CommanderConfig}
use autotargeting.Settings.Defaults.{default_config}
use autotargeting.AntiLoop.{
  CorrectionCommand, AntiLoopState, allow, suppress, degrade, abort, new, process, clipped,
  count_sign_changes,
}
use autotargeting.AntiLoop.Bounds.{IsWithin, process-IsWithin}
use autotargeting.AntiLoop.Freeze.{Arrival, decisions, process_freezes}
use autotargeting.AntiLoop.Escalation.{decisions_never_abort}

abbrev turn : Milli → CorrectionCommand Milli
turn yaw = record {
  yaw_rate_dps = yaw;
  pitch_rate_dps = num false 0;
  offset_x = num false 300;
  offset_y = num false 0;
  generated_at = 0;
}

abbrev fast_left : CorrectionCommand Milli
fast_left = turn (num true 90_000)

abbrev right : CorrectionCommand Milli
right = turn (num false 5_000)

abbrev at : CorrectionCommand Milli → ℕ → Arrival Milli
at cmd t = record { command = cmd; now = t; later = t + 10 }

-- The guard that has let one turn to the right through.
turned : AntiLoopState
unfolding process new
turned = (process default_config new right 0 10).0

clips : (process default_config new fast_left 0 10).1 ≡ allow (turn (num true 30_000))
unfolding process clipped new
clips = refl

-- One change of the direction is an oscillation.
one_change : (process default_config turned fast_left 100 110).1 ≡ degrade
unfolding turned process clipped count_sign_changes
one_change = refl

-- An offset that is no number passes the deadband and the limits.
no_number :
    (process default_config new (record right { offset_x = not_a_number }) 0 10).1
    ≡ allow (record right { offset_x = not_a_number })
unfolding process clipped new
no_number = refl

process-IsWithin_example : IsWithin default_config (turn (num true 30_000))
process-IsWithin_example =
    process-IsWithin Milli-IsIeee default_config new fast_left (turn (num true 30_000)) 0 10
      (record { yaw = refl; pitch = refl; offset = refl }) clips

process_freezes_example :
    All
      (λ d. d ≡ suppress)
      (decisions default_config
        (process default_config turned fast_left 100 110).0
        (at right 200 ∷ at fast_left 900_000_000 ∷ []))
process_freezes_example =
    process_freezes default_config turned (at fast_left 100)
      (at right 200 ∷ at fast_left 900_000_000 ∷ []) (inl one_change)
      (omega arith, (omega arith, tt))

abbrev patient : CommanderConfig Milli
patient = record default_config { oscillation_abort_count = 6 }

decisions_never_abort_example :
    All (λ d. d ≢ abort) (decisions patient new (at right 0 ∷ at fast_left 100 ∷ []))
decisions_never_abort_example =
    decisions_never_abort patient (at right 0 ∷ at fast_left 100 ∷ []) (omega arith)
      (omega arith, omega arith, (omega arith, omega arith, tt))
