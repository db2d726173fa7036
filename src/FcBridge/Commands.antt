-- ===== src/FcBridge/Commands.antt =====
-- What the commands of auto-targeting/crates/fc-bridge/src/lib.rs do to an adapter: the one that records.
use Prim.Native.String.{String}
use text.Mathlib.Text.{◌==◌}
use autotargeting.Base.{
  suc, ◌+◌, ◌^◌, ◌<◌, ◌≡◌, refl, inl, inr, Bool, true, false, ◌||◌, Option, none, some, List, [],
  ◌∷◌, length, length-append, Result, ok, err, Fallible, if◌then◌else◌, Bool-cases, arith,
}
use autotargeting.Floats.{Float}
use autotargeting.Fc.Mock.{MockFcState, RecordedCommand, recorded, mock_fc}
use autotargeting.FcBridge.Dispatch.{
  BridgeError, Args, CommandMsg, need, mode_named, on_fc, with_arg, clear_or, dispatch_roi,
  dispatch_position, dispatch_mode, dispatch, BridgeStats, counted, drain,
}

module _ {F : Type 0} ⦃f : Float F⦄ where
  -- One command more in the log, or an error and nothing changed.
  abbrev Settles : MockFcState F → Fallible (MockFcState F) BridgeError (Unit {0}) → Type 0
  Settles s (s', ok u) = length s'.commands ≡ suc (length s.commands)
  Settles s (s', err e) = s' ≡ s

  recorded-Settles :
      (s : MockFcState F) (c : RecordedCommand F) (s' : MockFcState F)
      → Settles s (on_fc (recorded s c s'))
  unfolding recorded
  recorded-Settles s c s' = elim (Bool-cases s.connected) [
    | inl e ↦ rw e (omega (arith, length-append s.commands (c ∷ [])))
    | inr e ↦ rw e refl
  ]

  with_arg-Settles :
      {A : Type 0} (s : MockFcState F) (r : Result BridgeError A)
      (k : A → Fallible (MockFcState F) BridgeError (Unit {0}))
      → ((a : A) → Settles s (k a))
      → Settles s (with_arg s r k)
  with_arg-Settles s (ok a) k h = h a
  with_arg-Settles s (err e) k h = refl

  if-Settles :
      (s : MockFcState F) (b : Bool) (p q : Fallible (MockFcState F) BridgeError (Unit {0}))
      → Settles s p
      → Settles s q
      → Settles s (if b then p else q)
  if-Settles s true p q hp hq = hp
  if-Settles s false p q hp hq = hq

  clear_or-Settles :
      (s : MockFcState F) (flag : Option Bool)
      (p q : Fallible (MockFcState F) BridgeError (Unit {0}))
      → Settles s p
      → Settles s q
      → Settles s (clear_or flag p q)
  clear_or-Settles s (some true) p q hp hq = hp
  clear_or-Settles s (some false) p q hp hq = hq
  clear_or-Settles s none p q hp hq = hq

module _ {F : Type 0} ⦃f : Float F⦄ (narrow : F → F) (lower : String → String) where
  dispatch_roi-Settles :
      (args : Args F) (s : MockFcState F) → Settles s (dispatch_roi narrow lower args s)
  unfolding dispatch_roi
  dispatch_roi-Settles args s =
      let located =
        with_arg-Settles s (need (args.number "lat")) _ (λ lat.
          with_arg-Settles s (need (args.number "lon")) _ (λ lon. recorded-Settles s _ s)) in
      clear_or-Settles s args.none_flag _ _ (recorded-Settles s _ s) located

  dispatch_position-Settles :
      (args : Args F) (s : MockFcState F) → Settles s (dispatch_position narrow lower args s)
  unfolding dispatch_position
  dispatch_position-Settles args s = with_arg-Settles s (need (args.number "north")) _ (λ north.
      with_arg-Settles s (need (args.number "east")) _ (λ east.
        with_arg-Settles s (need (args.number "down")) _ (λ down.
          with_arg-Settles s (need (args.number "yaw")) _ (λ yaw. recorded-Settles s _ s))))

  dispatch_mode-Settles :
      (args : Args F) (s : MockFcState F) → Settles s (dispatch_mode narrow lower args s)
  unfolding dispatch_mode
  dispatch_mode-Settles args s = with_arg-Settles s (need args.mode) _ (λ name.
      with_arg-Settles s (need (mode_named (lower name))) _ (λ mode. recorded-Settles s _ _))

  dispatch-Settles : (m : CommandMsg F) (s : MockFcState F) → Settles s (dispatch narrow lower m s)
  unfolding dispatch
  dispatch-Settles m s =
      if-Settles s (m.target == "fc") _ _
        (if-Settles s (m.cmd == "set_roi") _ _ (dispatch_roi-Settles m.args s) (
          if-Settles s ((m.cmd == "set_pos_ned") || (m.cmd == "set_position_target_local_ned")) _ _
            (dispatch_position-Settles m.args s)
            (if-Settles s (m.cmd == "set_mode") _ _ (dispatch_mode-Settles m.args s) (
              if-Settles s (m.cmd == "arm") _ _ (recorded-Settles s _ _)
                (if-Settles s (m.cmd == "disarm") _ _ (recorded-Settles s _ _) refl)))))
        refl

  counted-Settles :
      (s : MockFcState F) (r : Fallible (MockFcState F) BridgeError (Unit {0}))
      (stats : BridgeStats)
      → Settles s r
      → stats.commands_handled + 1 < 2 ^ 64
      → stats.command_errors + 1 < 2 ^ 64
      → (length (r.0).commands + stats.commands_handled
          ≡ length s.commands + (counted r.1 stats).commands_handled)
        × ((counted r.1 stats).commands_handled + (counted r.1 stats).command_errors
            ≡ stats.commands_handled + stats.command_errors + 1)
  counted-Settles s (s', ok u) stats h p q = (omega (arith, h), omega arith)
  counted-Settles s (s', err e) stats h p q = (rw h (omega arith), omega arith)

  -- Over the commands that wait, on the adapter that records: every command is counted once, as handled
  -- or as an error, and as many as were counted as handled were recorded; the counters do not wrap.
  pub drain_accounts :
      (ms : List (CommandMsg F)) (s : MockFcState F) (stats : BridgeStats)
      → stats.commands_handled + stats.command_errors + length ms < 2 ^ 64
      → let r = drain narrow lower ms (s, stats) in
        (length (r.0).commands + stats.commands_handled
          ≡ length s.commands + (r.1).commands_handled)
        × ((r.1).commands_handled + (r.1).command_errors
            ≡ stats.commands_handled + stats.command_errors + length ms)
  unfolding drain
  drain_accounts [] s stats h = (refl, omega arith)
  drain_accounts (m ∷ ms) s stats h =
      let r = dispatch narrow lower m s in
      let here = counted-Settles s r stats (dispatch-Settles m s) (omega arith) (omega arith) in
      let there = drain_accounts ms r.0 (counted r.1 stats) (omega (arith, here.1)) in
      (omega (arith, here.0, there.0), omega (arith, here.1, there.1))
