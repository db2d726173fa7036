-- ===== src/AntiLoop/Freeze.antt =====
-- The freeze after an oscillation.
use autotargeting.Base.{ℕ, ◌+◌, ◌<◌, ◌≡◌, ◌⊎◌, some, List, [], ◌∷◌, arith, All}
use autotargeting.Floats.{Float}
use autotargeting.Settings.{CommanderConfig}
use autotargeting.AntiLoop.{
  CorrectionCommand, GuardDecision, AntiLoopState, suppress, degrade, abort, second, process,
}

-- A command with the two clock readings of the call that processes it.
pub record Arrival (F : Type 0) : Type 0 where
  pub command : CorrectionCommand F
  pub now : ℕ
  pub later : ℕ

module _ {F : Type 0} ⦃f : Float F⦄ where
  unfoldable pub process_all : CommanderConfig F → AntiLoopState → List (Arrival F) → AntiLoopState
  process_all c s [] = s
  process_all c s (a ∷ rest) = process_all c (process c s a.command a.now a.later).0 rest

  unfoldable pub decisions :
      CommanderConfig F → AntiLoopState → List (Arrival F) → List (GuardDecision F)
  decisions c s [] = []
  decisions c s (a ∷ rest) =
      let (s', d) = process c s a.command a.now a.later in d ∷ decisions c s' rest

  frozen_suppress :
      (c : CommanderConfig F) (s : AntiLoopState) (until : ℕ) (a : Arrival F)
      → s.freeze_until ≡ some until
      → a.now < until
      → let (s', d) = process c s a.command a.now a.later in
        (d ≡ suppress) × (s'.freeze_until ≡ some until)
  unfolding process
  frozen_suppress c s until a e h = ground arith

  decisions_frozen :
      (c : CommanderConfig F) (s : AntiLoopState) (until : ℕ) (rest : List (Arrival F))
      → s.freeze_until ≡ some until
      → All (λ a. a.now < until) rest
      → All (λ d. d ≡ suppress) (decisions c s rest)
  unfolding decisions
  decisions_frozen c s until [] e h = tt
  decisions_frozen c s until (a ∷ rest) e h =
      let (hushed, still) = frozen_suppress c s until a e h.0 in
      (hushed, decisions_frozen c (process c s a.command a.now a.later).0 until rest still h.1)

  freeze-process :
      (c : CommanderConfig F) (s : AntiLoopState) (a : Arrival F)
      → let (s', d) = process c s a.command a.now a.later in
        (d ≡ degrade) ⊎ (d ≡ abort) → s'.freeze_until ≡ some (a.later + second)
  unfolding process
  freeze-process c s a h = ground arith

  -- After the guard answered with `degrade` or `abort`, it suppresses every command of the next
  -- second.
  pub process_freezes :
      (c : CommanderConfig F) (s : AntiLoopState) (a : Arrival F) (rest : List (Arrival F))
      → ((process c s a.command a.now a.later).1 ≡ degrade)
        ⊎ ((process c s a.command a.now a.later).1 ≡ abort)
      → All (λ b. b.now < a.later + second) rest
      → All (λ d. d ≡ suppress) (decisions c (process c s a.command a.now a.later).0 rest)
  process_freezes c s a rest h soon =
      decisions_frozen c _ (a.later + second) rest (freeze-process c s a h) soon
