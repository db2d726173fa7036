-- ===== src/AntiLoop/Accounts.antt =====
-- What the guard's counters and its history say.
use autotargeting.Base.{
  ℕ, ◌+◌, ◌-◌, ◌≤◌, ◌≡◌, Bool, List, [], ◌∷◌, ◌++◌, arith, length, length-append, u64,
}
use autotargeting.Floats.{Float}
use autotargeting.Settings.{CommanderConfig}
use autotargeting.AntiLoop.{
  AntiLoopState, CorrectionCommand, process, pop_front, remember, yaw_sign, clipped,
}
use autotargeting.AntiLoop.Freeze.{Arrival, process_all}

-- All calls, by the counters.
abbrev pub counted : AntiLoopState → ℕ
counted s = s.suppressed_count + s.allowed_count + s.oscillation_trigger_count

length-pop_front : (vs : List Bool) → length (pop_front vs) ≡ length vs - 1
length-pop_front [] = omega arith
length-pop_front (v ∷ vs) = omega arith

length-remember :
    (window : ℕ) (b : Bool) (h : List Bool)
    → length h ≤ window
    → length (remember window b h) ≤ window
length-remember window b h le =
    ground (arith, length-append h (b ∷ []), length-pop_front (h ++ (b ∷ [])))

module _ {F : Type 0} ⦃f : Float F⦄ where
  process-counted :
      (c : CommanderConfig F) (s : AntiLoopState) (cmd : CorrectionCommand F) (now later : ℕ)
      → u64 (counted (process c s cmd now later).0) ≡ u64 (counted s + 1)
  unfolding process
  process-counted c s cmd now later = ground arith

  -- Every command is counted once: as suppressed, as allowed, or as a trigger. The counters and the
  -- sum wrap at 64 bits.
  pub process_all-counted :
      (c : CommanderConfig F) (s : AntiLoopState) (arrivals : List (Arrival F))
      → u64 (counted (process_all c s arrivals)) ≡ u64 (counted s + length arrivals)
  unfolding process_all
  process_all-counted c s [] = omega arith
  process_all-counted c s (a ∷ rest) = omega (
    arith,
    process-counted c s a.command a.now a.later,
    process_all-counted c (process c s a.command a.now a.later).0 rest,
  )

  history-process :
      (c : CommanderConfig F) (s : AntiLoopState) (cmd : CorrectionCommand F) (now later : ℕ)
      → length s.yaw_sign_history ≤ c.oscillation_window
      → length (process c s cmd now later).0.yaw_sign_history ≤ c.oscillation_window
  unfolding process
  history-process c s cmd now later h =
      ground
        (arith, length-remember c.oscillation_window (yaw_sign (clipped c cmd)) s.yaw_sign_history)

  -- The history of signs never grows past its window.
  pub history-process_all :
      (c : CommanderConfig F) (s : AntiLoopState) (arrivals : List (Arrival F))
      → length s.yaw_sign_history ≤ c.oscillation_window
      → length (process_all c s arrivals).yaw_sign_history ≤ c.oscillation_window
  unfolding process_all
  history-process_all c s [] h = h
  history-process_all c s (a ∷ rest) h =
      history-process_all c (process c s a.command a.now a.later).0 rest
        (history-process c s a.command a.now a.later h)
