-- ===== src/Base/Families.antt =====
-- Families `ℕ → A` indexed by thread: an update at one index, and a sum over the first `n`.
use Prim.Native.Nat.{ℕ, zero, suc, ◌+◌, ◌≤◌, ◌<◌}
use mathlib.Core.Path.{◌≡◌, refl}
use native.Mathlib.Decide.{dec_lt}
use native.Mathlib.Omega.{arith}
use autotargeting.Base.Tests.{if◌then◌else◌, ◌==◌}

abbrev pub put {ℓ} : {A : Type ℓ} → (ℕ → A) → ℕ → A → ℕ → A
put f i a j = if j == i then a else f j

module _ {ℓ} {A : Type ℓ} (w : A → ℕ) where
  pub sum_over : ℕ → (ℕ → A) → ℕ
  sum_over zero f = 0
  sum_over (suc n) f = sum_over n f + w (f n)

  pub sum_over-suc : (n : ℕ) (f : ℕ → A) → sum_over (suc n) f ≡ sum_over n f + w (f n)
  unfolding sum_over
  sum_over-suc n f = refl

  pub sum_over-zero : (f : ℕ → A) → sum_over zero f ≡ 0
  unfolding sum_over
  sum_over-zero f = refl

  sum_over-put_above :
      (n : ℕ) (f : ℕ → A) (i : ℕ) (a : A) → n ≤ i → sum_over n (put f i a) ≡ sum_over n f
  unfolding sum_over
  sum_over-put_above zero f i a h = refl
  sum_over-put_above (suc n) f i a h = ground (arith, sum_over-put_above n f i a)

  -- One thread moves: its old weight goes, its new weight comes.
  pub sum_over-put :
      (n : ℕ) (f : ℕ → A) (i : ℕ) (a : A)
      → i < n
      → sum_over n (put f i a) + w (f i) ≡ sum_over n f + w a
  unfolding sum_over
  sum_over-put zero f i a h = absurd (omega arith)
  sum_over-put (suc n) f i a h = elim (dec_lt i n) [
    | yes below ↦ ground (arith, sum_over-put n f i a below)
    | no last ↦ ground (arith, sum_over-put_above n f i a)
  ]

  pub sum_over-le : ((a : A) → w a ≤ 1) → (n : ℕ) (f : ℕ → A) → sum_over n f ≤ n
  unfolding sum_over
  sum_over-le small zero f = omega arith
  sum_over-le small (suc n) f = omega (arith, small (f n), sum_over-le small n f)

  pub le-sum_over : (n : ℕ) (f : ℕ → A) (i : ℕ) → i < n → w (f i) ≤ sum_over n f
  unfolding sum_over
  le-sum_over zero f i h = absurd (omega arith)
  le-sum_over (suc n) f i h = elim (dec_lt i n) [
    | yes below ↦ omega (arith, le-sum_over n f i below)
    | no last ↦ ground arith
  ]

  pub sum_over_zero : (n : ℕ) (f : ℕ → A) → ((i : ℕ) → w (f i) ≡ 0) → sum_over n f ≡ 0
  unfolding sum_over
  sum_over_zero zero f h = refl
  sum_over_zero (suc n) f h = omega (arith, h n, sum_over_zero n f h)
