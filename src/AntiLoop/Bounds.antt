-- ===== src/AntiLoop/Bounds.antt =====
-- What the guard lets through is within the configured limits.
use autotargeting.Base.{ℕ, ◌≡◌, inl, inr, false, arith}
use autotargeting.Floats.{Float, IsIeee}
use autotargeting.Settings.{CommanderConfig}
use autotargeting.AntiLoop.{CorrectionCommand, AntiLoopState, allow, clip, clipped, process}

module _ {F : Type 0} ⦃f : Float F⦄ where
  -- No limit of the configuration is negative.
  pub record IsSane (c : CommanderConfig F) : Type 0 where
    pub yaw : f.lt c.max_yaw_rate_dps f.nought ≡ false
    pub pitch : f.lt c.max_pitch_rate_dps f.nought ≡ false
    pub offset : f.lt c.max_offset_fraction f.nought ≡ false

  -- No component of the command exceeds its limit.
  pub record IsWithin (c : CommanderConfig F) (cmd : CorrectionCommand F) : Type 0 where
    pub yaw : f.lt c.max_yaw_rate_dps (f.abs cmd.yaw_rate_dps) ≡ false
    pub pitch : f.lt c.max_pitch_rate_dps (f.abs cmd.pitch_rate_dps) ≡ false
    pub offset_x : f.lt c.max_offset_fraction (f.abs cmd.offset_x) ≡ false
    pub offset_y : f.lt c.max_offset_fraction (f.abs cmd.offset_y) ≡ false

  allowed-clipped :
      (c : CommanderConfig F) (s : AntiLoopState) (cmd out : CorrectionCommand F) (now later : ℕ)
      → (process c s cmd now later).1 ≡ allow out
      → out ≡ clipped c cmd
  unfolding process
  allowed-clipped c s cmd out now later e = ground arith

  module _ (laws : IsIeee F) where
    clip_le : (x max : F) → f.lt max f.nought ≡ false → f.lt max (f.abs (clip x max)) ≡ false
    clip_le x max h = elim (laws.signum_unit x) [
      | inl e ↦ ground (arith, laws.one_mul max, laws.lt_abs max h)
      | inr (inl e) ↦ ground (arith, laws.neg_mul max, laws.abs_neg max, laws.lt_abs max h)
      | inr (inr e) ↦ ground (arith, laws.nan_mul max, laws.abs_nan, laws.lt_nan max)
    ]

    clipped-IsWithin :
        (c : CommanderConfig F) (cmd : CorrectionCommand F) → IsSane c → IsWithin c (clipped c cmd)
    unfolding clipped
    clipped-IsWithin c cmd s = record {
      yaw = clip_le cmd.yaw_rate_dps c.max_yaw_rate_dps s.yaw;
      pitch = clip_le cmd.pitch_rate_dps c.max_pitch_rate_dps s.pitch;
      offset_x = clip_le cmd.offset_x c.max_offset_fraction s.offset;
      offset_y = clip_le cmd.offset_y c.max_offset_fraction s.offset;
    }

    -- With limits that are not negative, a command that the guard allows exceeds none of them in
    -- absolute value, whatever was asked.
    pub process-IsWithin :
        (c : CommanderConfig F) (s : AntiLoopState) (cmd out : CorrectionCommand F) (now later : ℕ)
        → IsSane c
        → (process c s cmd now later).1 ≡ allow out
        → IsWithin c out
    process-IsWithin c s cmd out now later sane e =
        rw (allowed-clipped c s cmd out now later e) (clipped-IsWithin c cmd sane)
