-- ===== src/Assignment/Paths.antt =====
-- The augmenting path: a row more has a column, and none loses its own.
use autotargeting.Base.{
  ℕ, zero, suc, ◌+◌, ◌≤◌, ◌<◌, ◌≡◌, ◌≢◌, inl, inr, Bool, put, if◌then◌else◌, ◌==◌, arith,
  Bool-cases, sum_over, sum_over-put, sum_over-suc, some,
}
use autotargeting.Assignment.{augment}
use autotargeting.Assignment.Rounds.{Leads}

abbrev pub occupied : ℕ → ℕ
occupied row = if row == 0 then 0 else 1

-- The rows at the columns up to `size`, but for column `hole`.
abbrev pub IsAt : ℕ → (ℕ → ℕ) → ℕ → ℕ → Type 0
IsAt size p hole i = (j : ℕ) × (j ≤ size) × (j ≢ hole) × (p j ≡ i)

abbrev pub count_at : ℕ → (ℕ → ℕ) → ℕ → ℕ
count_at size p hole = sum_over occupied (suc size) (put p hole 0)

-- Fewer rows than columns: a column is free.
pub free_column : (n : ℕ) (p : ℕ → ℕ) → count_at n p 0 < n → (c : ℕ) × (0 < c) × (c ≤ n) × (p c ≡ 0)
free_column zero p h = absurd (omega arith)
free_column (suc n) p h = elim (Bool-cases (p (suc n) == 0)) [
  | inl free ↦ (suc n, omega arith, omega arith, ground (arith, free))
  | inr taken ↦
      let (c, pos, le, free) =
        free_column n p (ground (arith, taken, sum_over-suc occupied (suc n) (put p 0 0))) in
      (c, pos, omega arith, free)
]

module _ (size : ℕ) where
  IsAt-shift :
      (p : ℕ → ℕ) (j0 j1 i : ℕ) → j0 ≤ size → IsAt size p j0 i → IsAt size (put p j0 (p j1)) j1 i
  IsAt-shift p j0 j1 i le (j, small, off, here) = elim (Bool-cases (j == j1)) [
    | inl moved ↦ (j0, le, ground arith, ground arith)
    | inr stays ↦ (j, small, ground arith, ground arith)
  ]

  count_at-shift :
      (p : ℕ → ℕ) (j0 j1 : ℕ)
      → j0 ≤ size
      → j1 ≤ size
      → count_at size (put p j0 (p j1)) j1 ≡ count_at size p j0
  count_at-shift p j0 j1 le0 le1 = ground (
    arith,
    sum_over-put occupied (suc size) (put p j0 (p j1)) j1 0 (omega arith),
    sum_over-put occupied (suc size) p j0 (p j1) (omega arith),
    sum_over-put occupied (suc size) p j0 0 (omega arith),
  )

  -- With fuel for the path the shifting ends, at column 0.
  pub augment_outcome :
      (way : ℕ → ℕ) (used : ℕ → Bool) (k fuel : ℕ) (p : ℕ → ℕ) (j0 : ℕ)
      → k ≤ fuel
      → Leads way used size k j0
      → j0 ≢ 0
      → j0 ≤ size
      → (p' : ℕ → ℕ) × (augment way fuel p j0 ≡ some p')
        × (count_at size p' 0 ≡ count_at size p j0)
        × ((i : ℕ) → IsAt size p j0 i → IsAt size p' 0 i)
  unfolding augment
  augment_outcome way used zero fuel p j0 enough leads pos le = absurd (pos leads)
  augment_outcome way used (suc k) zero p j0 enough leads pos le = absurd (omega arith)
  augment_outcome way used (suc k) (suc fuel) p j0 enough (inl e) pos le = absurd (pos e)
  augment_outcome way used (suc k) (suc fuel) p j0 enough (inr (small, _, leads)) pos le =
      let j1 = way j0 in
      let shifted = put p j0 (p j1) in
      elim (Bool-cases (j1 == 0)) [
        | inl end ↦
            let at_0 : j1 ≡ 0 = ground (arith, end) in
            (
              shifted,
              ground (arith, end),
              ground (arith, count_at-shift p j0 j1 le small, at_0),
              λ i here.
                  let (j, inside, off, same) = IsAt-shift p j0 j1 i le here in
                  (j, inside, λ e. off (ground (arith, at_0, e)), same),
            )
        | inr more ↦
            let (p', result, count, keeps) =
              augment_outcome way used k fuel shifted j1 (omega arith) leads (ground (arith, more))
                small in
            (
              p',
              ground (arith, more, result),
              ground (arith, count, count_at-shift p j0 j1 le small),
              λ i here. keeps i (IsAt-shift p j0 j1 i le here),
            )
      ]

  -- The search for row `i` starts with one row more, at column 0.
  pub count_at-begin :
      (p : ℕ → ℕ) (i j0 : ℕ)
      → i ≢ 0
      → j0 ≤ size
      → put p 0 i j0 ≡ 0
      → count_at size (put p 0 i) j0 ≡ count_at size p 0 + 1
  count_at-begin p i j0 row le free = ground (
    arith,
    sum_over-put occupied (suc size) (put p 0 i) j0 0 (omega arith),
    sum_over-put occupied (suc size) p 0 i (omega arith),
    sum_over-put occupied (suc size) p 0 0 (omega arith),
  )
