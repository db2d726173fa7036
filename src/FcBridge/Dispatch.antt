-- ===== src/FcBridge/Dispatch.antt =====
-- auto-targeting/crates/fc-bridge/src/lib.rs: commands from the bus. What the JSON library answers about
-- the arguments is a part of the message; the lower case of a text and the rounding `as f32` of a number
-- (of 64 bits, as those of the message are) are parameters.
use Prim.Native.String.{String}
use text.Mathlib.Text.{◌==◌}
use autotargeting.Base.{
  ℕ, ◌+◌, Bool, true, ◌||◌, Option, none, some, List, [], ◌∷◌, Result, ok, err, Fallible,
  if◌then◌else◌, u64,
}
use autotargeting.Floats.{Float}
use autotargeting.Types.{
  FlightMode, manual, stabilize, alt_hold, loiter, guided, rtl, auto, global_lat_lng, clear,
}
use autotargeting.Fc.{FcError, FcStep, FlightControllerAdapter}

-- The variants that a command ends in.
pub data BridgeError : Type 0 where
  fc : FcError → BridgeError
  bad_command : BridgeError

-- `args.get(k)` as a number, the flag `none`, and the text of `mode`.
pub record Args (F : Type 0) : Type 0 where
  pub number : String → Option F
  pub none_flag : Option Bool
  pub mode : Option String

pub record CommandMsg (F : Type 0) : Type 0 where
  pub target : String
  pub cmd : String
  pub args : Args F

-- `ok_or_else(|| Self::need(k))`.
abbrev pub need : {A : Type 0} → Option A → Result BridgeError A
need none = err bad_command
need (some a) = ok a

unfoldable pub mode_named : String → Option FlightMode
mode_named name =
    if name == "manual"
    then some manual
    else if (name == "stabilize") || (name == "stabilised")
    then some stabilize
    else if (name == "althold") || (name == "alt_hold")
    then some alt_hold
    else if name == "loiter"
    then some loiter
    else if name == "guided"
    then some guided
    else if (name == "rtl") || (name == "return")
    then some rtl
    else if name == "auto"
    then some auto
    else none

-- `map_err(BridgeError::Fc)`.
abbrev pub on_fc : {S : Type 0} → FcStep S → Fallible S BridgeError (Unit {0})
on_fc (s, ok u) = (s, ok u)
on_fc (s, err e) = (s, err (fc e))

-- The `?` on an argument, before the adapter is called.
abbrev pub with_arg :
    {S A : Type 0}
    → S
    → Result BridgeError A
    → (A → Fallible S BridgeError (Unit {0}))
    → Fallible S BridgeError (Unit {0})
with_arg s (ok a) k = k a
with_arg s (err e) k = (s, err e)

-- The test `== Some(true)` on the flag.
abbrev pub clear_or : {A : Type 0} → Option Bool → A → A → A
clear_or (some true) cleared located = cleared
clear_or flag cleared located = located

module _ {S F : Type 0} ⦃f : Float F⦄ ⦃adapter : FlightControllerAdapter S F⦄ (narrow : F → F)
    (lower : String → String) where
  unfoldable pub dispatch_roi : Args F → S → Fallible S BridgeError (Unit {0})
  dispatch_roi args s =
      let located = with_arg s (need (args.number "lat")) (λ lat.
        with_arg s (need (args.number "lon")) (λ lon. on_fc (
          adapter.set_roi s (
            global_lat_lng lat lon
              (narrow (elim (args.number "alt") [ none ↦ f.nought | some alt ↦ alt ])))))) in
      clear_or args.none_flag (on_fc (adapter.set_roi s clear)) located

  unfoldable pub dispatch_position : Args F → S → Fallible S BridgeError (Unit {0})
  dispatch_position args s = with_arg s (need (args.number "north")) (λ north.
      with_arg s (need (args.number "east")) (λ east.
        with_arg s (need (args.number "down")) (λ down.
          with_arg s (need (args.number "yaw")) (λ yaw. on_fc (
            adapter.set_position_target_local_ned s (record {
              north = narrow north;
              east = narrow east;
              down = narrow down;
              yaw = narrow yaw;
            }))))))

  unfoldable pub dispatch_mode : Args F → S → Fallible S BridgeError (Unit {0})
  dispatch_mode args s = with_arg s (need args.mode) (λ name.
      with_arg s (need (mode_named (lower name))) (λ mode. on_fc (adapter.set_mode s mode)))

  unfoldable pub dispatch : CommandMsg F → S → Fallible S BridgeError (Unit {0})
  dispatch m s =
      if m.target == "fc"
      then (if m.cmd == "set_roi"
          then dispatch_roi m.args s
          else if (m.cmd == "set_pos_ned") || (m.cmd == "set_position_target_local_ned")
          then dispatch_position m.args s
          else if m.cmd == "set_mode"
          then dispatch_mode m.args s
          else if m.cmd == "arm"
          then on_fc (adapter.arm s)
          else if m.cmd == "disarm"
          then on_fc (adapter.disarm s)
          else (s, err bad_command))
      else (s, err bad_command)

pub record BridgeStats : Type 0 where
  pub telemetry_published : ℕ
  pub commands_handled : ℕ
  pub command_errors : ℕ

abbrev pub counted : Result BridgeError (Unit {0}) → BridgeStats → BridgeStats
counted (ok u) stats = record stats { commands_handled = u64 (stats.commands_handled + 1) }
counted (err e) stats = record stats { command_errors = u64 (stats.command_errors + 1) }

module _ {S F : Type 0} ⦃f : Float F⦄ ⦃adapter : FlightControllerAdapter S F⦄ (narrow : F → F)
    (lower : String → String) where
  -- The loop over the commands that wait.
  unfoldable pub drain : List (CommandMsg F) → S × BridgeStats → S × BridgeStats
  drain [] (s, stats) = (s, stats)
  drain (m ∷ ms) (s, stats) = let r = dispatch narrow lower m s in drain ms (r.0, counted r.1 stats)
