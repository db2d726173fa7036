-- ===== src/Safety/Tests.antt =====
-- A monitor on numbers with three decimals, at a battery with 10 %.
use autotargeting.Base.{◌≡◌, refl, true, false, some}
use autotargeting.Floats.Milli.{Milli, num, milli_float}
use autotargeting.Safety.{
  Trigonometry, SafetyMonitor, critical_battery_land, battery_violated, land, new, update_battery,
  battery_check, check, battery_violation,
}

-- Small angles: the sine is the angle, the cosine is one; the square root is left out.
instance abbrev flat_earth : Trigonometry Milli Milli
flat_earth = record {
  earth_radius_m = num false 6_371_000_000;
  two = num false 2_000;
  add = milli_float.add;
  sub = milli_float.sub;
  mul = milli_float.mul;
  div = milli_float.div;
  to_radians = λ a. milli_float.div a (num false 57_296);
  sin = λ a. a;
  cos = λ a. num false 1_000;
  asin = λ a. a;
  sqrt = λ a. a;
  square = λ a. milli_float.mul a a;
  narrow = λ a. a;
}

abbrev monitor : SafetyMonitor Milli Milli
monitor = new (record {
  geofence = record {
    max_distance_m = num false 500_000;
    max_altitude_m = num false 120_000;
    min_altitude_m = num true 10_000;
  };
  battery = record {
    rth_threshold_pct = num false 30_000;
    land_threshold_pct = num false 15_000;
    min_voltage = num false 10_500;
  };
  enable_geofence = true;
  enable_battery = true;
})

abbrev drained : SafetyMonitor Milli Milli
drained = update_battery monitor (num false 11_000) (num false 10_000)

lands : check drained ≡ some (battery_violated critical_battery_land, land)
unfolding check battery_check battery_violation update_battery new
lands = refl
