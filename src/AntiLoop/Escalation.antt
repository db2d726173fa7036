-- ===== src/AntiLoop/Escalation.antt =====
-- How far the guard can escalate: triggers are a second apart, and only those of five seconds count.
use autotargeting.Base.{
  ℕ, ◌+◌, ◌-◌, ◌*◌, ◌≤◌, ◌<◌, ◌≡◌, ◌≢◌, ◌⊎◌, inl, inr, false, Bool, Option, none, some, List, [],
  ◌∷◌, ◌++◌, arith, All, length, ltb, u32, Option-cases,
}
use autotargeting.Floats.{Float}
use autotargeting.Settings.{CommanderConfig}
use autotargeting.AntiLoop.{
  CorrectionCommand, AntiLoopState, degrade, abort, second, new, process, is_frozen_at,
}
use autotargeting.AntiLoop.Freeze.{Arrival, decisions}
use autotargeting.AntiLoop.Pacing.{
  IsPaced, recent, All-retain, All-le, All-snoc, retain-IsPaced, snoc-IsPaced, length-paced_recent,
  All-recent,
}

-- All triggers lie a second before the end of the freeze, or before the clock where none is on.
abbrev IsReady : Option ℕ → List ℕ → ℕ → Type 0
IsReady none triggers clock = All (λ t. t + second ≤ clock) triggers
IsReady (some until) triggers clock = All (λ t. t + second ≤ until) triggers

-- The state of the escalation at a reading of the clock.
record IsCalm (s : AntiLoopState) (clock : ℕ) : Type 0 where
  paced : IsPaced s.recent_triggers
  ready : IsReady s.freeze_until s.recent_triggers clock

later-IsReady :
    (freeze : Option ℕ) (ts : List ℕ) (clock later : ℕ)
    → IsReady freeze ts clock
    → clock ≤ later
    → IsReady freeze ts later
later-IsReady none ts clock later ready le = All-le clock later ts le ready
later-IsReady (some until) ts clock later ready le = ready

ready-frozen :
    (s : AntiLoopState) (clock now : ℕ)
    → IsReady s.freeze_until s.recent_triggers clock
    → clock ≤ now
    → is_frozen_at s now ≡ false
    → All (λ t. t + second ≤ now) s.recent_triggers
ready-frozen s clock now ready le over = elim (Option-cases s.freeze_until) [
  | inl e ↦ All-le clock now s.recent_triggers le (rw e at ready)
  | inr (until, e) ↦ All-le until now s.recent_triggers (ground arith) (rw e at ready)
]

kept-IsCalm :
    (s s' : AntiLoopState) (clock later : ℕ)
    → IsCalm s clock
    → clock ≤ later
    → s'.recent_triggers ≡ s.recent_triggers
    → s'.freeze_until ≡ s.freeze_until
    → IsCalm s' later
kept-IsCalm s s' clock later calm le triggers freeze = record {
  paced = rw triggers calm.paced;
  ready =
      rw (freeze, triggers)
        (later-IsReady s.freeze_until s.recent_triggers clock later calm.ready le);
}

thawed-IsCalm :
    (s s' : AntiLoopState) (clock now later : ℕ)
    → IsCalm s clock
    → clock ≤ now
    → now ≤ later
    → is_frozen_at s now ≡ false
    → s'.recent_triggers ≡ s.recent_triggers
    → s'.freeze_until ≡ none
    → IsCalm s' later
thawed-IsCalm s s' clock now later calm le le' over triggers freeze = record {
  paced = rw triggers calm.paced;
  ready =
      rw (freeze, triggers)
        (All-le now later s.recent_triggers le' (ready-frozen s clock now calm.ready le over));
}

triggered-IsCalm :
    (s s' : AntiLoopState) (now later : ℕ)
    → IsPaced s.recent_triggers
    → All (λ t. t + second ≤ now) s.recent_triggers
    → now ≤ later
    → s'.recent_triggers ≡ recent later s.recent_triggers ++ (later ∷ [])
    → s'.freeze_until ≡ some (later + second)
    → IsCalm s' later
triggered-IsCalm s s' now later paced old le triggers freeze =
    let kept =
      All-retain (λ t. t + second ≤ now) (λ t. ltb (later - t) (5 * second)) s.recent_triggers
        old in
    record {
      paced = rw triggers (
          snoc-IsPaced (recent later s.recent_triggers) later
            (retain-IsPaced (λ t. ltb (later - t) (5 * second)) s.recent_triggers paced)
            (All-le now later (recent later s.recent_triggers) le kept));
      ready =
          rw (freeze, triggers)
            (All-snoc (λ t. t + second ≤ later + second) (recent later s.recent_triggers) later
              (All-le now (later + second) (recent later s.recent_triggers) (omega arith) kept)
              (omega arith));
    }

five_at_most :
    (s : AntiLoopState) (clock now later : ℕ)
    → IsCalm s clock
    → clock ≤ now
    → now ≤ later
    → is_frozen_at s now ≡ false
    → length (recent later s.recent_triggers ++ (later ∷ [])) ≤ 5
five_at_most s clock now later calm le le' over =
    let p : ℕ → Bool = λ t. ltb (later - t) (5 * second) in
    let old =
      All-le now later s.recent_triggers le' (ready-frozen s clock now calm.ready le over) in
    length-paced_recent later (recent later s.recent_triggers) (All-recent later s.recent_triggers)
      (snoc-IsPaced (recent later s.recent_triggers) later
        (retain-IsPaced p s.recent_triggers calm.paced)
        (All-retain (λ t. t + second ≤ later) p s.recent_triggers old))

module _ {F : Type 0} ⦃f : Float F⦄ where
  -- What a call does to the triggers and the freeze.
  process_cases :
      (c : CommanderConfig F) (s : AntiLoopState) (cmd : CorrectionCommand F) (now later : ℕ)
      → let (s', d) = process c s cmd now later in
        ((d ≢ abort)
          × (s'.recent_triggers ≡ s.recent_triggers)
          × (s'.freeze_until ≡ s.freeze_until))
        ⊎ ((d ≢ abort)
            × (is_frozen_at s now ≡ false)
            × (s'.recent_triggers ≡ s.recent_triggers)
            × (s'.freeze_until ≡ none))
        ⊎ ((is_frozen_at s now ≡ false)
            × (s'.recent_triggers ≡ recent later s.recent_triggers ++ (later ∷ []))
            × (s'.freeze_until ≡ some (later + second))
            × ((d ≡ degrade)
                ⊎ (c.oscillation_abort_count
                    ≤ u32 (length (recent later s.recent_triggers ++ (later ∷ []))))))
  unfolding process
  process_cases c s cmd now later = ground arith

  process-IsCalm :
      (c : CommanderConfig F) (s : AntiLoopState) (cmd : CorrectionCommand F) (clock now later : ℕ)
      → IsCalm s clock
      → clock ≤ now
      → now ≤ later
      → IsCalm (process c s cmd now later).0 later
  process-IsCalm c s cmd clock now later calm le le' = elim (process_cases c s cmd now later) [
    | inl (d, triggers, freeze) ↦ kept-IsCalm s _ clock later calm (omega arith) triggers freeze
    | inr (inl (d, over, triggers, freeze)) ↦
        thawed-IsCalm s _ clock now later calm le le' over triggers freeze
    | inr (inr (over, triggers, freeze, d)) ↦
        triggered-IsCalm s _ now later calm.paced (ready-frozen s clock now calm.ready le over) le'
          triggers freeze
  ]

  process_no_abort :
      (c : CommanderConfig F) (s : AntiLoopState) (cmd : CorrectionCommand F) (clock now later : ℕ)
      → 5 < c.oscillation_abort_count
      → IsCalm s clock
      → clock ≤ now
      → now ≤ later
      → (process c s cmd now later).1 ≢ abort
  process_no_abort c s cmd clock now later many calm le le' =
      elim (process_cases c s cmd now later) [
        | inl (d, _, _) ↦ d
        | inr (inl (d, _, _, _)) ↦ d
        | inr (inr (over, _, _, inl d)) ↦ ground arith
        | inr (inr (over, _, _, inr count)) ↦
            absurd (omega (arith, count, five_at_most s clock now later calm le le' over))
      ]

-- The clock does not run backwards.
abbrev pub IsTimed : {F : Type 0} → ℕ → List (Arrival F) → Type 0
IsTimed clock [] = Unit
IsTimed clock (a ∷ rest) = (clock ≤ a.now) × (a.now ≤ a.later) × IsTimed a.later rest

module _ {F : Type 0} ⦃f : Float F⦄ where
  decisions_calm :
      (c : CommanderConfig F) (s : AntiLoopState) (clock : ℕ) (arrivals : List (Arrival F))
      → 5 < c.oscillation_abort_count
      → IsCalm s clock
      → IsTimed clock arrivals
      → All (λ d. d ≢ abort) (decisions c s arrivals)
  unfolding decisions
  decisions_calm c s clock [] many calm timed = tt
  decisions_calm c s clock (a ∷ rest) many calm (le, le', timed) = (
    process_no_abort c s a.command clock a.now a.later many calm le le',
    decisions_calm c (process c s a.command a.now a.later).0 a.later rest many
        (process-IsCalm c s a.command clock a.now a.later calm le le') timed,
  )

  -- A trigger freezes the guard for a second, and only the triggers of five seconds count: where more
  -- than five are asked for, a new guard never answers `abort`, whatever arrives. The clock does not
  -- run backwards.
  pub decisions_never_abort :
      (c : CommanderConfig F) (arrivals : List (Arrival F))
      → 5 < c.oscillation_abort_count
      → IsTimed 0 arrivals
      → All (λ d. d ≢ abort) (decisions c new arrivals)
  unfolding new
  decisions_never_abort c arrivals many timed =
      decisions_calm c new 0 arrivals many (record { paced = tt; ready = tt }) timed
