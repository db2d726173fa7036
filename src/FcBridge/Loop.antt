-- ===== src/FcBridge/Loop.antt =====
-- auto-targeting/crates/fc-bridge/src/lib.rs: one round of the loop, at one reading of the clock. The
-- texts and the time of the messages are left out; what the bus takes of the messages is an argument.
use Prim.Native.String.{String}
use autotargeting.Base.{
  ℕ, ◌+◌, ◌-◌, ◌*◌, ◌/◌, max, Bool, false, not, Option, none, some, List, [], ◌∷◌, ◌++◌, ◌==◌, leb,
  if◌then◌else◌, u64,
}
use autotargeting.Floats.{Float}
use autotargeting.Types.{
  FlightMode, unknown, manual, stabilize, alt_hold, loiter, guided, rtl, auto, GlobalPosition,
  nanos_per_milli,
}
use autotargeting.Fc.{FlightControllerAdapter, is_heartbeat_stale}
use autotargeting.FcBridge.Dispatch.{CommandMsg, BridgeStats, drain}

pub record BridgeConfig : Type 0 where
  pub telemetry_hz : ℕ
  pub heartbeat_timeout_ms : ℕ
  pub status_interval : ℕ

unfoldable pub mode_to_u8 : FlightMode → ℕ
mode_to_u8 unknown = 255
mode_to_u8 manual = 0
mode_to_u8 stabilize = 2
mode_to_u8 auto = 10
mode_to_u8 rtl = 11
mode_to_u8 loiter = 12
mode_to_u8 guided = 15
mode_to_u8 alt_hold = 17

pub record TelemetrySample (F : Type 0) : Type 0 where
  pub roll_deg : F
  pub pitch_deg : F
  pub yaw_deg : F
  pub alt_m : F
  pub lat_deg : F
  pub lon_deg : F
  pub mode : ℕ

-- The kinds of an `FcEvent`, with their details: link_up and link_down, armed, mode_change.
pub data FcEvent : Type 0 where
  link armed : Bool → FcEvent
  mode_change : FlightMode → FcEvent

-- What was last announced.
pub record Announced : Type 0 where
  pub prev_alive : Option Bool
  pub prev_armed : Option Bool
  pub prev_mode : Option FlightMode

abbrev pub bool_eq : Bool → Bool → Bool
bool_eq a b = if a then b else not b

abbrev pub is_known : Option Bool → Bool → Bool
is_known none b = false
is_known (some a) b = bool_eq a b

-- The modes have different codes, by which the derived `PartialEq` is written here.
abbrev pub is_known_mode : Option FlightMode → FlightMode → Bool
is_known_mode none m = false
is_known_mode (some k) m = mode_to_u8 k == mode_to_u8 m

-- The three edges, in their order.
unfoldable pub announce :
    (alive is_armed : Bool) → FlightMode → Announced → Announced × List FcEvent
unfolding mode_to_u8
announce alive is_armed mode p = (
  record { prev_alive = some alive; prev_armed = some is_armed; prev_mode = some mode },
  (if is_known p.prev_alive alive then [] else link alive ∷ [])
      ++ ((if is_known p.prev_armed is_armed then [] else armed is_armed ∷ [])
          ++ (if is_known_mode p.prev_mode mode then [] else mode_change mode ∷ [])),
)

pub record BridgeState : Type 0 where
  pub stats : BridgeStats
  pub last_tele : ℕ
  pub last_status : ℕ
  pub announced : Announced
  pub win_frames : ℕ
  pub win_start : ℕ

-- What the bus takes in a round; of each kind of event there is one at most.
pub record Bus : Type 0 where
  pub takes_sample : Bool
  pub takes_event : FcEvent → Bool
  pub takes_status : Bool

-- The events that the bus takes; the answer of `publish` is dropped.
unfoldable pub delivered : (FcEvent → Bool) → List FcEvent → List FcEvent
delivered takes [] = []
delivered takes (e ∷ es) = if takes e then e ∷ delivered takes es else delivered takes es

-- What a round publishes and the bus takes.
pub record Published (F : Type 0) : Type 0 where
  pub samples : List (TelemetrySample F)
  pub events : List FcEvent
  pub statuses : List BridgeStats

-- The status message carries the counters; its rate is left out.
unfoldable pub status :
    {F : Type 0} → BridgeConfig → ℕ → Bus → BridgeState × Published F → BridgeState × Published F
status cfg now bus (b, out) =
    if leb cfg.status_interval (now - b.last_status)
    then (
      record b { win_frames = 0; win_start = now; last_status = now },
      record out { statuses = if bus.takes_status then b.stats ∷ [] else [] },
    )
    else (b, out)

abbrev pub telemetry_period : BridgeConfig → ℕ
telemetry_period cfg = 1000 / max cfg.telemetry_hz 1 * nanos_per_milli

abbrev field_or : {F : Type 0} → F → Option (GlobalPosition F) → (GlobalPosition F → F) → F
field_or d none field = d
field_or d (some p) field = field p

module _ {S F : Type 0} ⦃f : Float F⦄ ⦃adapter : FlightControllerAdapter S F⦄
    (to_degrees : F → F) where
  unfoldable pub sample_of : S → ℕ → TelemetrySample F
  sample_of s now =
      let att = adapter.attitude s in
      let pos = adapter.global_position s in
      record {
        roll_deg = to_degrees att.roll;
        pitch_deg = to_degrees att.pitch;
        yaw_deg = to_degrees att.yaw;
        alt_m = field_or f.nought pos (λ p. p.alt_agl);
        lat_deg = field_or f.nought pos (λ p. p.lat);
        lon_deg = field_or f.nought pos (λ p. p.lon);
        mode = mode_to_u8 (adapter.heartbeat_status s now).mode;
      }

  -- The telemetry of a round that is due. An edge counts as announced whether the bus takes the event
  -- or not.
  unfoldable pub telemetry : BridgeConfig → ℕ → Bus → S → BridgeState → BridgeState × Published F
  unfolding delivered
  telemetry cfg now bus s b =
      let hb = adapter.heartbeat_status s now in
      let alive = not (is_heartbeat_stale F s now cfg.heartbeat_timeout_ms) in
      let edges = announce alive hb.armed hb.mode b.announced in
      let stats = b.stats in
      (
        record b {
          last_tele = now;
          announced = edges.0;
          stats =
              if bus.takes_sample
              then record stats { telemetry_published = u64 (stats.telemetry_published + 1) }
              else stats;
          win_frames = if bus.takes_sample then u64 (b.win_frames + 1) else b.win_frames;
        },
        record {
          samples = if bus.takes_sample then sample_of s now ∷ [] else [];
          events = delivered bus.takes_event edges.1;
          statuses = [];
        },
      )

  unfoldable pub round :
      (F → F)
      → (String → String)
      → BridgeConfig
      → ℕ
      → Bus
      → List (CommandMsg F)
      → S × BridgeState
      → S × BridgeState × Published F
  round narrow lower cfg now bus commands (s, b) =
      let drained = drain narrow lower commands (s, b.stats) in
      let b1 = record b { stats = drained.1 } in
      let sampled =
        if leb (telemetry_period cfg) (now - b.last_tele)
        then telemetry cfg now bus drained.0 b1
        else (b1, record { samples = []; events = []; statuses = [] }) in
      let done = status cfg now bus sampled in (drained.0, done.0, done.1)
