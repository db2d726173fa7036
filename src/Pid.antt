-- ===== src/Pid.antt =====
-- auto-targeting/crates/commander/src/pid.rs: the controllers of the axes. A call is `none` where
-- `clamp` panics: on limits that are not in order.
pub mod Limits
mod Tests
use autotargeting.Base.{Bool, true, false, not, ◌&&◌, Option, none, some, if◌then◌else◌, and_then}
use autotargeting.Floats.{Float, clamp, at_least}

pub record PidConfig (F : Type 0) : Type 0 where
  pub kp : F
  pub ki : F
  pub kd : F
  pub max_output : F
  pub min_output : F
  pub deadband : F
  pub integral_limit : F
  pub derivative_filter : F

pub record PidController (F : Type 0) : Type 0 where
  pub config : PidConfig F
  pub integral : F
  pub prev_error : F
  pub filtered_derivative : F
  pub initialized : Bool

pub record PidPair (F : Type 0) : Type 0 where
  pub yaw : PidController F
  pub pitch : PidController F

module _ {F : Type 0} ⦃f : Float F⦄ where
  abbrev pub default_pid : PidConfig F
  default_pid = record {
    kp = f.two;
    ki = f.literal 5 1;
    kd = f.tenth;
    max_output = f.literal 30 0;
    min_output = f.neg (f.literal 30 0);
    deadband = f.literal 2 2;
    integral_limit = f.literal 15 0;
    derivative_filter = f.literal 3 1;
  }

  abbrev pub with_config : PidConfig F → PidController F
  with_config config = record {
    config = config;
    integral = f.nought;
    prev_error = f.nought;
    filtered_derivative = f.nought;
    initialized = false;
  }

  abbrev pub pid : F → F → F → PidController F
  pid kp ki kd = with_config (record default_pid { kp = kp; ki = ki; kd = kd })

  abbrev pub with_limits : F → F → PidController F → PidController F
  with_limits low high c = record c {
    config = record c.config { min_output = low; max_output = high };
  }

  abbrev pub with_deadband : F → PidController F → PidController F
  with_deadband deadband c = record c { config = record c.config { deadband = deadband } }

  abbrev pub with_anti_windup : F → PidController F → PidController F
  with_anti_windup limit c = record c { config = record c.config { integral_limit = limit } }

  abbrev pub clamp_or_panic : F → F → F → Option F
  clamp_or_panic x low high = if f.le low high then some (clamp x low high) else none

  abbrev pub differs : F → F → Bool
  differs x y = not (f.le x y && f.le y x)

  -- The filtered derivative.
  unfoldable pub derived : F → F → PidController F → F
  derived error dt c =
      let derivative = if c.initialized then f.div (f.sub error c.prev_error) dt else f.nought in
      let alpha = f.sub f.one c.config.derivative_filter in
      f.add (f.mul alpha derivative) (f.mul (f.sub f.one alpha) c.filtered_derivative)

  -- The sum of the three terms.
  unfoldable pub summed : F → F → F → PidController F → F
  unfolding derived
  summed error dt integral c =
      f.add (f.add (f.mul c.config.kp error) (f.mul c.config.ki integral))
        (f.mul c.config.kd (derived error dt c))

  -- Back calculation: where the output is cut, the integral is taken back.
  abbrev pub back : F → F → F → F → F
  back ki integral output clamped =
      if differs clamped output
      then f.sub integral (f.div (f.sub output clamped) (at_least (f.literal 1 6) ki))
      else integral

  unfoldable pub update : F → F → PidController F → Option (PidController F × F)
  unfolding summed
  update error dt c =
      if f.le dt f.nought
      then some (c, f.nought)
      else if f.lt (f.abs error) c.config.deadband
      then some (record c { integral = f.mul c.integral (f.literal 9 1) }, f.nought)
      else and_then
          (clamp_or_panic (f.add c.integral (f.mul error dt)) (f.neg c.config.integral_limit)
            c.config.integral_limit)
          λ integral.
            let output = summed error dt integral c in
            and_then (clamp_or_panic output c.config.min_output c.config.max_output) λ clamped.
              some (
                record c {
                  integral = back c.config.ki integral output clamped;
                  prev_error = error;
                  filtered_derivative = derived error dt c;
                  initialized = true;
                },
                if differs clamped output then clamped else output,
              )

  unfoldable pub reset : PidController F → PidController F
  reset c = with_config c.config

  unfoldable pub update_pair : F → F → F → PidPair F → Option (PidPair F × F × F)
  unfolding update
  update_pair error_x error_y dt p = and_then (update error_x dt p.yaw) λ yaw.
      and_then (update error_y dt p.pitch)
        λ pitch. some (record { yaw = yaw.0; pitch = pitch.0 }, yaw.1, pitch.1)

  unfoldable pub reset_pair : PidPair F → PidPair F
  unfolding reset
  reset_pair p = record { yaw = reset p.yaw; pitch = reset p.pitch }
