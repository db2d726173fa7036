-- ===== src/Floats/Milli.antt =====
-- Numbers with three decimals, a sign and a NaN: a type of values that meets the laws, for runs.
use autotargeting.Base.{
  ℕ, ◌+◌, ◌-◌, ◌*◌, ◌/◌, ◌^◌, min, ◌≡◌, ◌⊎◌, refl, Bool, true, false, not, ◌&&◌, arith, ltb, leb,
  ◌==◌, if◌then◌else◌,
}
use autotargeting.Floats.{Float, IsIeee}

-- `num negative thousandths`.
pub data Milli : Type 0 where
  not_a_number : Milli
  infinite : Bool → Milli
  num : Bool → ℕ → Milli

abbrev flip_sign : Milli → Milli
flip_sign not_a_number = not_a_number
flip_sign (infinite s) = infinite (not s)
flip_sign (num s n) = num (not s) n

abbrev magnitude : Milli → Milli
magnitude not_a_number = not_a_number
magnitude (infinite s) = infinite false
magnitude (num s n) = num false n

abbrev sign_of : Milli → Milli
sign_of not_a_number = not_a_number
sign_of (infinite s) = num s 1000
sign_of (num s n) = num s 1000

abbrev same_sign : Bool → Bool → Bool
same_sign true b = b
same_sign false b = not b

abbrev product : Milli → Milli → Milli
product not_a_number _ = not_a_number
product (infinite s) not_a_number = not_a_number
product (infinite s) (infinite t) = infinite (not (same_sign s t))
product (infinite s) (num t m) = if m == 0 then not_a_number else infinite (not (same_sign s t))
product (num s n) not_a_number = not_a_number
product (num s n) (infinite t) = if n == 0 then not_a_number else infinite (not (same_sign s t))
product (num s n) (num t m) = num (not (same_sign s t)) (n * m / 1000)

abbrev quotient : Milli → Milli → Milli
quotient not_a_number _ = not_a_number
quotient (infinite s) not_a_number = not_a_number
quotient (infinite s) (infinite t) = not_a_number
quotient (infinite s) (num t m) = infinite (not (same_sign s t))
quotient (num s n) not_a_number = not_a_number
quotient (num s n) (infinite t) = num (not (same_sign s t)) 0
quotient (num s n) (num t m) =
    if m == 0
    then if n == 0 then not_a_number else infinite (not (same_sign s t))
    else num (not (same_sign s t)) (n * 1000 / m)

abbrev sum : Milli → Milli → Milli
sum not_a_number _ = not_a_number
sum (infinite s) not_a_number = not_a_number
sum (infinite s) (infinite t) = if same_sign s t then infinite s else not_a_number
sum (infinite s) (num t m) = infinite s
sum (num s n) not_a_number = not_a_number
sum (num s n) (infinite t) = infinite t
sum (num s n) (num t m) =
    if same_sign s t then num s (n + m) else if leb m n then num s (n - m) else num t (m - n)

abbrev less : Milli → Milli → Bool
less not_a_number _ = false
less (infinite s) not_a_number = false
less (infinite s) (infinite t) = s && not t
less (infinite s) (num t m) = s
less (num s n) not_a_number = false
less (num s n) (infinite t) = not t
less (num false n) (num false m) = ltb n m
less (num true n) (num true m) = ltb m n
less (num true n) (num false m) = not (n == 0 && m == 0)
less (num false n) (num true m) = false

abbrev whole : Milli → ℕ
whole not_a_number = 0
whole (infinite true) = 0
whole (infinite false) = 2 ^ 32 - 1
whole (num true n) = 0
whole (num false n) = min (n / 1000) (2 ^ 32 - 1)

abbrev less_or_equal : Milli → Milli → Bool
less_or_equal not_a_number _ = false
less_or_equal (infinite s) not_a_number = false
less_or_equal (infinite s) (infinite t) = not (less (infinite t) (infinite s))
less_or_equal (infinite s) (num t m) = s
less_or_equal (num s n) not_a_number = false
less_or_equal (num s n) (infinite t) = not t
less_or_equal (num s n) (num t m) = not (less (num t m) (num s n))

instance abbrev pub milli_float : Float Milli
milli_float = record {
  nought = num false 0;
  one = num false 1000;
  two = num false 2000;
  tenth = num false 100;
  nan = not_a_number;
  infinity = infinite false;
  literal = λ n k. num false (n * 1000 / 10 ^ k);
  neg = flip_sign;
  abs = magnitude;
  signum = sign_of;
  mul = product;
  div = quotient;
  add = sum;
  sub = λ a b. sum a (flip_sign b);
  of_count = λ n. num false (n * 1000);
  truncate = whole;
  lt = less;
  le = less_or_equal;
}

less-split :
    (t x y z : Milli) → less t x ≡ true → less y z ≡ true → (less y x ≡ true) ⊎ (less x z ≡ true)
less-split t (num true n) y z h k = ground arith
less-split t (num false n) y z h k = ground arith
less-split t (infinite s) y z h k = ground arith
less-split t not_a_number y z h k = ground arith

pub Milli-IsIeee : IsIeee Milli
Milli-IsIeee = record {
  signum_unit = λ x. ground arith;
  one_mul = λ x. ground arith;
  neg_mul = λ x. ground arith;
  nan_mul = λ x. ground arith;
  abs_neg = λ x. ground arith;
  abs_nan = refl;
  lt_nan = λ x. ground arith;
  lt_abs = λ x h. ground arith;
  lt_infinity = λ x d h. ground arith;
  infinity_sub = λ x d h. ground arith;
  sub_infinity = λ x h. ground arith;
  nan_lt = λ x. refl;
  lt_asym = λ x y h. ground arith;
  lt_split = less-split;
  infinity_lt = λ x. ground arith;
  lt_le = λ x y h. ground arith;
}
