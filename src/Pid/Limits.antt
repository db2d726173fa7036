-- ===== src/Pid/Limits.antt =====
-- The controller keeps to its limits.
use autotargeting.Base.{
  ◌≡◌, ◌⊎◌, inl, inr, refl, true, false, some, if◌then◌else◌, arith, Bool-cases,
}
use autotargeting.Floats.{Float, IsIeee, clamp}
use autotargeting.Pid.{PidController, differs, back, derived, summed, update}

module _ {F : Type 0} ⦃f : Float F⦄ (ieee : IsIeee F) where
  -- Neither below the one nor above the other; so is a NaN.
  abbrev pub IsBetween : F → F → F → Type 0
  IsBetween low high x = (f.lt x low ≡ false) × (f.lt high x ≡ false)

  clamp-IsBetween : (x low high : F) → f.le low high ≡ true → IsBetween low high (clamp x low high)
  clamp-IsBetween x low high ordered =
      ground
        (arith, ordered, ieee.lt_le low high ordered, ieee.lt_asym low low, ieee.lt_asym high high)

  -- The integral that a call works with.
  abbrev pub accumulated : F → F → PidController F → F
  accumulated error dt c =
      clamp (f.add c.integral (f.mul error dt)) (f.neg c.config.integral_limit)
        c.config.integral_limit

  differs-IsBetween :
      (x low high : F)
      → f.le low high ≡ true
      → let cut = clamp x low high in IsBetween low high (if differs cut x then cut else x)
  differs-IsBetween x low high ordered = ground (
    arith,
    clamp-IsBetween x low high ordered,
    ieee.lt_le low x,
    ieee.lt_le x high,
    ieee.lt_le x low,
    ieee.lt_le high x,
  )

  -- With limits in order a call returns. At a time step that is not positive the output is zero and the
  -- controller is unchanged. At an error in the deadband the output is zero and of the controller only
  -- the integral changes, to nine tenths, which may be beyond its limit. At every other the output is not
  -- beyond the limits (it may be a NaN), and the integral is not beyond its own unless the output was
  -- cut.
  pub update-IsBetween :
      (error dt : F) (c : PidController F)
      → f.le c.config.min_output c.config.max_output ≡ true
      → f.le (f.neg c.config.integral_limit) c.config.integral_limit ≡ true
      → (c' : PidController F) × (out : F) × (update error dt c ≡ some (c', out))
        × (((f.le dt f.nought ≡ true) × (out ≡ f.nought) × (c' ≡ c))
            ⊎ ((f.le dt f.nought ≡ false)
                × (f.lt (f.abs error) c.config.deadband ≡ true)
                × (out ≡ f.nought)
                × (c' ≡ record c { integral = f.mul c.integral (f.literal 9 1) }))
            ⊎ ((f.le dt f.nought ≡ false)
                × (f.lt (f.abs error) c.config.deadband ≡ false)
                × IsBetween c.config.min_output c.config.max_output out
                × (IsBetween (f.neg c.config.integral_limit) c.config.integral_limit c'.integral
                    ⊎ (differs out (summed error dt (accumulated error dt c) c) ≡ true))))
  unfolding update
  update-IsBetween error dt c ordered symmetric = elim (Bool-cases (f.le dt f.nought)) [
    | inl still ↦ (c, f.nought, ground (arith, still), inl (still, refl, refl))
    | inr moving ↦ elim (Bool-cases (f.lt (f.abs error) c.config.deadband)) [
      | inl dead ↦ (
        record c { integral = f.mul c.integral (f.literal 9 1) },
        f.nought,
        ground (arith, moving, dead),
        inr (inl (moving, dead, refl, refl)),
      )
      | inr live ↦
          let k = c.config in
          let integral = accumulated error dt c in
          let output = summed error dt integral c in
          let cut = clamp output k.min_output k.max_output in
          (
            record c {
              integral = back k.ki integral output cut;
              prev_error = error;
              filtered_derivative = derived error dt c;
              initialized = true;
            },
            (if differs cut output then cut else output),
            ground (arith, moving, live, ordered, symmetric),
            inr (
                inr (
                  moving,
                  live,
                  differs-IsBetween output k.min_output k.max_output ordered,
                  elim (Bool-cases (differs cut output)) [
                    | inl is_cut ↦ inr (ground (arith, is_cut))
                    | inr whole ↦ inl (
                        ground (
                          arith,
                          whole,
                          clamp-IsBetween (f.add c.integral (f.mul error dt))
                              (f.neg k.integral_limit) k.integral_limit symmetric,
                        ))
                  ],
                )),
          )
    ]
  ]
