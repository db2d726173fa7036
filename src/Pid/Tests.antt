-- ===== src/Pid/Tests.antt =====
-- The controller at work.
use autotargeting.Base.{◌≡◌, ◌⊎◌, refl, true, false, some}
use autotargeting.Floats.Milli.{Milli, num, milli_float, Milli-IsIeee}
use autotargeting.Pid.{PidController, pid, summed, differs, update}
use autotargeting.Pid.Limits.{IsBetween, accumulated, update-IsBetween}

abbrev axis : PidController Milli
axis = pid (num false 2000) (num false 500) (num false 100)

-- A large error cuts the output at its limit, and takes the integral back to -60, far beyond
-- the limit of 15 for it.
abbrev cut_axis : PidController Milli
cut_axis = record axis {
  integral = num true 60_000;
  prev_error = num false 30_000;
  filtered_derivative = num false 0;
  initialized = true;
}

beyond_limit : update (num false 30_000) (num false 1000) axis ≡ some (cut_axis, num false 30_000)
unfolding update
beyond_limit = refl

update-IsBetween_example :
    (c' : PidController Milli) × (out : Milli) × (update (num false 400) (num false 33) axis
      ≡ some (c', out))
    × (((milli_float.le (num false 33) (num false 0) ≡ true) × (out ≡ num false 0) × (c' ≡ axis))
        ⊎ ((milli_float.le (num false 33) (num false 0) ≡ false)
            × (milli_float.lt (num false 400) (num false 20) ≡ true)
            × (out ≡ num false 0)
            × (c' ≡ record axis { integral = num false 0 }))
        ⊎ ((milli_float.le (num false 33) (num false 0) ≡ false)
            × (milli_float.lt (num false 400) (num false 20) ≡ false)
            × IsBetween Milli-IsIeee (num true 30_000) (num false 30_000) out
            × (IsBetween Milli-IsIeee (num true 15_000) (num false 15_000) c'.integral
                ⊎ (differs out (
                      summed
                        (num false 400)
                        (num false 33)
                        (accumulated Milli-IsIeee (num false 400) (num false 33) axis)
                        axis)
                    ≡ true))))
update-IsBetween_example =
    update-IsBetween Milli-IsIeee (num false 400) (num false 33) axis refl refl
