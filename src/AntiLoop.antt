-- ===== src/AntiLoop.antt =====
-- auto-targeting/crates/commander/src/anti_loop.rs: the guard that every correction passes. The mutex
-- is held for a whole call of `process`, so that a call is one step. The two readings of
-- `Instant::now` in a call, in nanoseconds, are the arguments `now` and `later`.
pub mod Bounds
pub mod Freeze
pub mod Pacing
pub mod Escalation
pub mod Accounts
mod Tests
use autotargeting.Base.{
  ℕ, ◌+◌, ◌-◌, ◌*◌, Bool, true, false, not, ◌&&◌, Option, none, some, List, [], ◌∷◌, ◌++◌, u32, u64,
  ltb, leb, ◌==◌, if◌then◌else◌, length, retain,
}
use autotargeting.Floats.{Float}
use autotargeting.Settings.{CommanderConfig}

pub record CorrectionCommand (F : Type 0) : Type 0 where
  pub yaw_rate_dps : F
  pub pitch_rate_dps : F
  pub offset_x : F
  pub offset_y : F
  pub generated_at : ℕ

pub data GuardDecision (F : Type 0) : Type 0 where
  allow : CorrectionCommand F → GuardDecision F
  suppress degrade abort : GuardDecision F

pub record AntiLoopState : Type 0 where
  pub yaw_sign_history : List Bool  -- oldest first
  pub frozen : Bool
  pub freeze_until : Option ℕ
  pub recent_triggers : List ℕ
  pub suppressed_count : ℕ  -- u64
  pub allowed_count : ℕ  -- u64
  pub oscillation_trigger_count : ℕ  -- u64

pub record AntiLoopSnapshot : Type 0 where
  pub frozen : Bool
  pub suppressed_count : ℕ
  pub allowed_count : ℕ
  pub oscillation_trigger_count : ℕ
  pub history_len : ℕ  -- u32

unfoldable pub new : AntiLoopState
new = record {
  yaw_sign_history = [];
  frozen = false;
  freeze_until = none;
  recent_triggers = [];
  suppressed_count = 0;
  allowed_count = 0;
  oscillation_trigger_count = 0;
}

abbrev pub second : ℕ
second = 1_000_000_000

abbrev differ : Bool → Bool → Bool
differ true b = not b
differ false b = b

-- The loop of `count_sign_changes`, from the sign `prev` on, and the comparison with the next sign.
unfoldable pub changes_from : Bool → List Bool → Bool → ℕ
changes_from prev [] next = if differ next prev then 1 else 0
changes_from prev (v ∷ vs) next = (if differ v prev then 1 else 0) + changes_from v vs next

unfoldable pub count_sign_changes : List Bool → Bool → ℕ
unfolding changes_from
count_sign_changes [] next = 0
count_sign_changes (v ∷ vs) next = changes_from v vs next

-- `history.back()`, where the history is not empty.
abbrev pub last_or : Bool → List Bool → Bool
last_or b [] = b
last_or b (v ∷ vs) = last_or v vs

-- `pop_front`.
abbrev pub pop_front : List Bool → List Bool
pop_front [] = []
pop_front (v ∷ vs) = vs

abbrev pub count_suppressed : AntiLoopState → AntiLoopState
count_suppressed s = record s { suppressed_count = u64 (s.suppressed_count + 1) }

-- `now < until` of a freeze that is on.
abbrev pub is_frozen_at : AntiLoopState → ℕ → Bool
is_frozen_at s now = elim s.freeze_until [ none ↦ false | some until ↦ ltb now until ]

-- The branch in which the freeze is over.
abbrev pub thaw : AntiLoopState → AntiLoopState
thaw s = elim s.freeze_until [
  | none ↦ s
  | some until ↦ record s { frozen = false; freeze_until = none }
]

-- `push_back`, and `pop_front` where the history has grown past the window.
abbrev pub remember : ℕ → Bool → List Bool → List Bool
remember window sign history =
    let longer = history ++ (sign ∷ []) in
    if ltb window (length longer) then pop_front longer else longer

module _ {F : Type 0} ⦃f : Float F⦄ where
  abbrev pub in_deadband : CommanderConfig F → CorrectionCommand F → Bool
  in_deadband c cmd =
      f.lt (f.abs cmd.offset_x) c.deadband_fraction && f.lt (f.abs cmd.offset_y) c.deadband_fraction

  -- `if x.abs() > max { x = x.signum() * max }`.
  abbrev pub clip : F → F → F
  clip x max = if f.lt max (f.abs x) then f.mul (f.signum x) max else x

  unfoldable pub clipped : CommanderConfig F → CorrectionCommand F → CorrectionCommand F
  clipped c cmd = record cmd {
    yaw_rate_dps = clip cmd.yaw_rate_dps c.max_yaw_rate_dps;
    pitch_rate_dps = clip cmd.pitch_rate_dps c.max_pitch_rate_dps;
    offset_x = clip cmd.offset_x c.max_offset_fraction;
    offset_y = clip cmd.offset_y c.max_offset_fraction;
  }

  abbrev pub yaw_sign : CorrectionCommand F → Bool
  yaw_sign cmd = f.lt f.nought cmd.yaw_rate_dps

  -- The test of the oscillation detector on a history and a clipped command.
  unfoldable pub is_oscillating : CommanderConfig F → List Bool → CorrectionCommand F → Bool
  is_oscillating c [] cmd = false
  is_oscillating c (v ∷ vs) cmd =
      let next = yaw_sign cmd in
      differ (last_or v vs) next
      && f.lt f.tenth (f.abs cmd.yaw_rate_dps)
      && f.lt c.oscillation_threshold
          (f.div (f.of_count (count_sign_changes (v ∷ vs) next)) (f.of_count (length (v ∷ vs))))

  unfoldable pub handle_oscillation :
      CommanderConfig F → AntiLoopState → ℕ → AntiLoopState × GuardDecision F
  handle_oscillation c s later =
      let recent = retain (λ t. ltb (later - t) (5 * second)) s.recent_triggers ++ (later ∷ []) in
      (
        record s {
          oscillation_trigger_count = u64 (s.oscillation_trigger_count + 1);
          recent_triggers = recent;
          frozen = true;
          freeze_until = some (later + second);
          yaw_sign_history = [];
        },
        if leb c.oscillation_abort_count (u32 (length recent)) then abort else degrade,
      )

  unfoldable pub admit :
      CommanderConfig F → AntiLoopState → CorrectionCommand F → AntiLoopState × GuardDecision F
  admit c s cmd = (
    record s {
      yaw_sign_history = remember c.oscillation_window (yaw_sign cmd) s.yaw_sign_history;
      allowed_count = u64 (s.allowed_count + 1);
    },
    allow cmd,
  )

  unfoldable pub process :
      CommanderConfig F
      → AntiLoopState
      → CorrectionCommand F
      → ℕ
      → ℕ
      → AntiLoopState × GuardDecision F
  unfolding clipped is_oscillating handle_oscillation admit
  process c s₀ cmd now later =
      if is_frozen_at s₀ now
      then (count_suppressed s₀, suppress)
      else let s = thaw s₀ in
        if in_deadband c cmd
        then (count_suppressed s, suppress)
        else let cut = clipped c cmd in
          if is_oscillating c s.yaw_sign_history cut
          then handle_oscillation c s later
          else admit c s cut

unfoldable pub snapshot : AntiLoopState → AntiLoopSnapshot
snapshot s = record {
  frozen = s.frozen;
  suppressed_count = s.suppressed_count;
  allowed_count = s.allowed_count;
  oscillation_trigger_count = s.oscillation_trigger_count;
  history_len = u32 (length s.yaw_sign_history);
}
