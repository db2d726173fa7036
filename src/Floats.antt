-- ===== src/Floats.antt =====
-- What the program does with `f32` and `f64` values: an interface, since floats are the language's.
-- The laws are facts of IEEE 754 arithmetic; a NaN compares as false with everything.
pub mod Milli
use autotargeting.Base.{ℕ, ◌≡◌, ◌⊎◌, Bool, true, false, if◌then◌else◌}

pub record Float (F : Type 0) : Type 0 where
  pub nought : F
  pub one : F
  pub two : F
  pub tenth : F
  pub nan : F
  pub infinity : F
  pub literal : ℕ → ℕ → F  -- `literal n k` is n / 10^k, written out in the source
  pub neg : F → F
  pub abs : F → F
  pub signum : F → F
  pub mul : F → F → F
  pub div : F → F → F
  pub add : F → F → F
  pub sub : F → F → F
  pub of_count : ℕ → F
  pub truncate : F → ℕ  -- `as u32`, which saturates
  pub lt : F → F → Bool
  pub le : F → F → Bool

-- `x.max(c)` for a `c` that is a number.
abbrev pub at_least : {F : Type 0} ⦃f : Float F⦄ → F → F → F
at_least ⦃f⦄ c x = if f.le c x then x else c

-- `x.clamp(low, high)`, where it does not panic.
abbrev pub clamp : {F : Type 0} ⦃f : Float F⦄ → F → F → F → F
clamp ⦃f⦄ x low high = if f.lt x low then low else if f.lt high x then high else x

pub record IsIeee (F : Type 0) ⦃f : Float F⦄ : Type 0 where
  pub signum_unit :
      (x : F) → (f.signum x ≡ f.one) ⊎ (f.signum x ≡ f.neg f.one) ⊎ (f.signum x ≡ f.nan)
  pub one_mul : (x : F) → f.mul f.one x ≡ x
  pub neg_mul : (x : F) → f.mul (f.neg f.one) x ≡ f.neg x
  pub nan_mul : (x : F) → f.mul f.nan x ≡ f.nan
  pub abs_neg : (x : F) → f.abs (f.neg x) ≡ f.abs x
  pub abs_nan : f.abs f.nan ≡ f.nan
  pub lt_nan : (x : F) → f.lt x f.nan ≡ false
  pub lt_abs : (x : F) → f.lt x f.nought ≡ false → f.lt x (f.abs x) ≡ false
  pub lt_infinity : (x d : F) → f.lt x d ≡ true → f.lt x f.infinity ≡ true
  pub infinity_sub : (x d : F) → f.lt x f.infinity ≡ false → f.lt (f.sub x d) f.infinity ≡ false
  pub sub_infinity : (x : F) → f.lt x f.infinity ≡ false → f.sub x f.infinity ≡ f.nan
  pub nan_lt : (x : F) → f.lt f.nan x ≡ false
  pub lt_le : (x y : F) → f.le x y ≡ true → f.lt y x ≡ false
  pub infinity_lt : (x : F) → f.lt f.infinity x ≡ false
  pub lt_asym : (x y : F) → f.lt x y ≡ true → f.lt y x ≡ false
  pub lt_split :
      (t x y z : F) → f.lt t x ≡ true → f.lt y z ≡ true → (f.lt y x ≡ true) ⊎ (f.lt x z ≡ true)
