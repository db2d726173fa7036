-- ===== src/Safety.antt =====
-- auto-targeting/crates/commander/src/safety.rs: the geofence, the battery and the monitor that
-- combines them. `F` is `f32`; `G` is `f64`, with the functions that the distance needs.

pub mod Actions
mod Tests
use autotargeting.Base.{Bool, true, false, Option, none, some, ◌&&◌, not, if◌then◌else◌, and_then}
use autotargeting.Floats.{Float}

-- Double precision, and the conversion to single precision.
pub record Trigonometry (G F : Type 0) : Type 0 where
  pub earth_radius_m : G
  pub two : G
  pub add : G → G → G
  pub sub : G → G → G
  pub mul : G → G → G
  pub div : G → G → G
  pub to_radians : G → G
  pub sin : G → G
  pub cos : G → G
  pub asin : G → G
  pub sqrt : G → G
  pub square : G → G  -- `powi(2)`
  pub narrow : G → F

pub record GlobalPosition (G F : Type 0) : Type 0 where
  pub lat : G
  pub lon : G
  pub alt_msl : F
  pub alt_agl : F

pub record GeofenceConfig (F : Type 0) : Type 0 where
  pub max_distance_m : F
  pub max_altitude_m : F
  pub min_altitude_m : F

pub data GeofenceViolation : Type 0 where
  distance_exceeded altitude_max_exceeded altitude_min_exceeded : GeofenceViolation

pub record Geofence (G F : Type 0) : Type 0 where
  pub config : GeofenceConfig F
  pub home : Option (G × G × F)
  pub last_position : Option (GlobalPosition G F)

pub record BatteryConfig (F : Type 0) : Type 0 where
  pub rth_threshold_pct : F
  pub land_threshold_pct : F
  pub min_voltage : F

pub data BatteryViolation : Type 0 where
  low_battery_rth critical_battery_land low_voltage : BatteryViolation

pub record BatteryState (F : Type 0) : Type 0 where
  pub voltage : F
  pub remaining_pct : F

pub record BatteryMonitor (F : Type 0) : Type 0 where
  pub config : BatteryConfig F
  pub last_battery : Option (BatteryState F)

pub record SafetyConfig (F : Type 0) : Type 0 where
  pub geofence : GeofenceConfig F
  pub battery : BatteryConfig F
  pub enable_geofence : Bool
  pub enable_battery : Bool

pub record SafetyMonitor (G F : Type 0) : Type 0 where
  pub config : SafetyConfig F
  pub geofence : Geofence G F
  pub battery : BatteryMonitor F

pub data SafetyViolation : Type 0 where
  geofence_violated : GeofenceViolation → SafetyViolation
  battery_violated : BatteryViolation → SafetyViolation

pub data SafetyAction : Type 0 where
  rth land warn : SafetyAction

abbrev pub action_of : BatteryViolation → SafetyAction
action_of critical_battery_land = land
action_of low_battery_rth = rth
action_of low_voltage = rth

module _ {G F : Type 0} where
  unfoldable pub new : SafetyConfig F → SafetyMonitor G F
  new config = record {
    config = config;
    geofence = record { config = config.geofence; home = none; last_position = none };
    battery = record { config = config.battery; last_battery = none };
  }

  unfoldable pub set_home : SafetyMonitor G F → G → G → F → SafetyMonitor G F
  set_home m lat lon alt_msl = record m {
    geofence = record m.geofence { home = some (lat, lon, alt_msl) };
  }

  unfoldable pub update_position : SafetyMonitor G F → GlobalPosition G F → SafetyMonitor G F
  update_position m pos =
      if m.config.enable_geofence
      then record m { geofence = record m.geofence { last_position = some pos } }
      else m

  unfoldable pub update_battery : SafetyMonitor G F → F → F → SafetyMonitor G F
  update_battery m voltage remaining_pct =
      if m.config.enable_battery
      then record m {
        battery = record m.battery {
          last_battery = some (record { voltage = voltage; remaining_pct = remaining_pct });
        };
      }
      else m

module _ {G F : Type 0} ⦃t : Trigonometry G F⦄ where
  unfoldable pub haversine_distance : G → G → G → G → F
  haversine_distance lat1 lon1 lat2 lon2 =
      let dlat = t.to_radians (t.sub lat2 lat1) in
      let dlon = t.to_radians (t.sub lon2 lon1) in
      let a = t.add (t.square (t.sin (t.div dlat t.two))) (
        t.mul (t.mul (t.cos (t.to_radians lat1)) (t.cos (t.to_radians lat2)))
          (t.square (t.sin (t.div dlon t.two)))) in
      t.narrow (t.mul t.earth_radius_m (t.mul t.two (t.asin (t.sqrt a))))

module _ {F : Type 0} ⦃f : Float F⦄ where
  -- `BatteryMonitor::check`, on a known state.
  unfoldable pub battery_violation : BatteryConfig F → BatteryState F → Option BatteryViolation
  battery_violation c bat =
      if f.le bat.remaining_pct c.land_threshold_pct
      then some critical_battery_land
      else if f.le bat.remaining_pct c.rth_threshold_pct
      then some low_battery_rth
      else if f.lt f.nought bat.voltage && f.le bat.voltage c.min_voltage
      then some low_voltage
      else none

  unfoldable pub battery_check : BatteryMonitor F → Option BatteryViolation
  battery_check b = and_then b.last_battery (battery_violation b.config)

module _ {G F : Type 0} ⦃f : Float F⦄ ⦃t : Trigonometry G F⦄ where
  -- `Geofence::check`, on a known home and position.
  unfoldable pub geofence_violation :
      GeofenceConfig F → G × G × F → GlobalPosition G F → Option GeofenceViolation
  geofence_violation c (home_lat, home_lon, home_alt) pos =
      let alt_agl = f.sub pos.alt_msl home_alt in
      if f.lt c.max_distance_m (haversine_distance home_lat home_lon pos.lat pos.lon)
      then some distance_exceeded
      else if f.lt c.max_altitude_m alt_agl
      then some altitude_max_exceeded
      else if f.lt alt_agl c.min_altitude_m
      then some altitude_min_exceeded
      else none

  unfoldable pub geofence_check : Geofence G F → Option GeofenceViolation
  geofence_check g =
      and_then g.home (λ home. and_then g.last_position (geofence_violation g.config home))

  abbrev pub has_home : Geofence G F → Bool
  has_home g = elim g.home [ none ↦ false | some h ↦ true ]

  -- The second half of `check`.
  unfoldable pub fence_check : SafetyMonitor G F → Option (SafetyViolation × SafetyAction)
  fence_check m =
      if m.config.enable_geofence && has_home m.geofence
      then elim (geofence_check m.geofence) [
        | none ↦ none
        | some v ↦ some (geofence_violated v, rth)
      ]
      else none

  unfoldable pub check : SafetyMonitor G F → Option (SafetyViolation × SafetyAction)
  unfolding fence_check
  check m =
      if m.config.enable_battery
      then elim (battery_check m.battery) [
        | none ↦ fence_check m
        | some v ↦ some (battery_violated v, action_of v)
      ]
      else fence_check m
