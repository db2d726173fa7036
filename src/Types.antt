-- ===== src/Types.antt =====
-- Domain types of auto-targeting/crates/common/src/types.rs that cross the components. A float is
-- an element of a type `F`; its operations are the interface of Floats.antt.
use autotargeting.Base.{ℕ, ◌-◌, ◌/◌, ◌≡◌, ◌↔◌, Bool, true, ◌==◌, ltb, u64, arith}

-- The top-level states of the commander.
pub data SystemState : Type 0 where
  idle armed scanning target_selected tracking tracking_degraded lost rth abort : SystemState

abbrev discriminant : SystemState → ℕ
discriminant idle = 0
discriminant armed = 1
discriminant scanning = 2
discriminant target_selected = 3
discriminant tracking = 4
discriminant tracking_degraded = 5
discriminant lost = 6
discriminant rth = 7
discriminant abort = 8

-- The derived `PartialEq`.
abbrev pub state_eq : SystemState → SystemState → Bool
state_eq a b = discriminant a == discriminant b

pub state_eq_iff : (a b : SystemState) → (state_eq a b ≡ true) ↔ (a ≡ b)
state_eq_iff a b = ground arith

-- The flight modes of the autopilot that the program uses.
pub data FlightMode : Type 0 where
  unknown manual stabilize alt_hold loiter guided rtl auto : FlightMode

pub record Attitude (F : Type 0) : Type 0 where
  pub roll : F
  pub pitch : F
  pub yaw : F
  pub roll_rate : F
  pub pitch_rate : F
  pub yaw_rate : F

pub record GlobalPosition (F : Type 0) : Type 0 where
  pub lat : F
  pub lon : F
  pub alt_msl : F
  pub alt_agl : F

pub record PositionTargetNed (F : Type 0) : Type 0 where
  pub north : F
  pub east : F
  pub down : F
  pub yaw : F

pub data RoiTarget (F : Type 0) : Type 0 where
  global_lat_lng : F → F → F → RoiTarget F
  local_ned : F → F → F → RoiTarget F
  clear : RoiTarget F

-- A reading of a clock and a duration are numbers of nanoseconds.
abbrev pub nanos_per_milli : ℕ
nanos_per_milli = 1_000_000

-- `(now - then).num_milliseconds().max(0) as u64`: a difference below zero counts as zero.
abbrev pub age_ms : ℕ → ℕ → ℕ
age_ms now then = u64 ((now - then) / nanos_per_milli)

pub record HeartbeatStatus : Type 0 where
  pub last_heartbeat : ℕ
  pub armed : Bool
  pub mode : FlightMode

-- `HeartbeatStatus::is_stale` at the clock reading `now`.
unfoldable pub is_stale : HeartbeatStatus → ℕ → ℕ → Bool
is_stale h now timeout_ms = ltb timeout_ms (age_ms now h.last_heartbeat)
