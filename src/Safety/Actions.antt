-- ===== src/Safety/Actions.antt =====
-- When the safety monitor asks for which action.
use autotargeting.Base.{◌≡◌, ◌⊎◌, ◌↔◌, Bool, true, false, Option, none, some, arith}
use autotargeting.Floats.{Float}
use autotargeting.Safety.{
  Trigonometry, SafetyMonitor, BatteryState, critical_battery_land, battery_violated, land,
  battery_violation, battery_check, geofence_check, fence_check, check,
}

module _ {F : Type 0} ⦃f : Float F⦄ where
  -- Whether a charge is known and at or below a threshold.
  abbrev pub is_at_most : Option (BatteryState F) → F → Bool
  is_at_most none threshold = false
  is_at_most (some bat) threshold = f.le bat.remaining_pct threshold

module _ {G F : Type 0} ⦃f : Float F⦄ ⦃t : Trigonometry G F⦄ where
  -- The monitor asks to land exactly when the battery is monitored and its last known charge is at or
  -- below the threshold for landing, wherever the drone is.
  pub check_land :
      (m : SafetyMonitor G F)
      → (check m ≡ some (battery_violated critical_battery_land, land)) ↔ (
          (m.config.enable_battery ≡ true)
          × (is_at_most m.battery.last_battery m.battery.config.land_threshold_pct ≡ true))
  unfolding check battery_check battery_violation fence_check
  check_land m = ground arith

  -- The monitor is silent exactly when each part is switched off or finds nothing wrong.
  pub check-none :
      (m : SafetyMonitor G F)
      → (check m ≡ none) ↔ (
          ((m.config.enable_battery ≡ false) ⊎ (battery_check m.battery ≡ none))
          × ((m.config.enable_geofence ≡ false) ⊎ (geofence_check m.geofence ≡ none)))
  unfolding check geofence_check
  check-none m = ground arith
