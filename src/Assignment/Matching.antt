-- ===== src/Assignment/Matching.antt =====
-- The outcome of the assignment: a matching, or a search that goes on for ever.
use autotargeting.Base.{
  ℕ, zero, suc, ◌+◌, ◌≤◌, ◌<◌, ◌≡◌, ◌⊎◌, inl, inr, refl, false, put, if◌then◌else◌, ◌==◌, ltb,
  arith, Bool-cases, sum_over_zero, none, some, length, get_elem?,
}
use autotargeting.Floats.{Float, IsIeee}
use autotargeting.Assignment.{Duals, begin_row, assign_row, assign_rows, columns, real_columns}
use autotargeting.Assignment.Rounds.{Inv, weight}
use autotargeting.Assignment.Search.{IsEndless, search_outcome}
use autotargeting.Assignment.Paths.{
  IsAt, count_at, occupied, augment_outcome, count_at-begin, free_column,
}

module _ {G : Type 0} ⦃g : Float G⦄ (ieee : IsIeee G) (cost : ℕ → ℕ → G) (size : ℕ) where
  -- Rows 1 to `k` have a column, and `k` columns have a row.
  abbrev pub IsMatched : ℕ → Duals G → Type 0
  IsMatched k d = (count_at size d.p 0 ≡ k) × ((i : ℕ) → 0 < i → i ≤ k → IsAt size d.p 0 i)

  begin_row-Inv : (i : ℕ) (d : Duals G) → Inv size 0 (begin_row i d)
  begin_row-Inv i d = record {
    seen = λ j seen. absurd (ground (arith, seen));
    here = (omega arith, refl, refl);
    priced = λ j free. inl (ieee.infinity_lt g.infinity);
    counted = sum_over_zero weight (suc size) (λ _. false) (λ _. refl);
  }

  rows-next :
      (k : ℕ) (p : ℕ → ℕ) (j0 : ℕ)
      → put p 0 (suc k) j0 ≡ 0
      → ((i : ℕ) → 0 < i → i ≤ k → IsAt size p 0 i)
      → (i : ℕ) → 0 < i
      → i ≤ suc k
      → IsAt size (put p 0 (suc k)) j0 i
  rows-next k p j0 free rows i pos le = elim (Bool-cases (i == suc k)) [
    | inl last ↦ (zero, omega arith, ground (arith, free), ground (arith, last))
    | inr before ↦
        let (j, small, off, same) = rows i pos (ground (arith, before)) in
        (j, small, ground (arith, free, same), ground (arith, off, same))
  ]

  -- The body for row `k + 1`: it is given a column, or its search goes on for ever.
  pub assign_row_outcome :
      (k : ℕ) (d : Duals G)
      → k < size
      → IsMatched k d
      → ((d' : Duals G) × (assign_row cost size (suc k) d ≡ some d') × IsMatched (suc k) d')
        ⊎ (IsEndless ieee cost size (begin_row (suc k) d) × (assign_row cost size (suc k) d ≡ none))
  unfolding assign_row
  assign_row_outcome k d less (count, rows) =
      let s = begin_row (suc k) d in
      let (c, pos, le, free) = free_column size d.p (omega (arith, count)) in
      elim (search_outcome ieee cost size size 0 c s (omega arith) (begin_row-Inv (suc k) d)
        (pos, le, ground (arith, free, pos)) (ground arith) (ground arith)) [
          | inl (t, result, found) ↦
              let (same, ended, n, small, inv) = found in
              let (inside, _, leads) = inv.here in
              let taken : put d.p 0 (suc k) t.j0 ≡ 0 = ground (arith, same, ended) in
              let (p', path, counted, keeps) =
                augment_outcome size t.duals.way t.used n (suc size) t.duals.p t.j0 (omega arith)
                  leads (ground (arith, taken)) inside in
              inl (
                record t.duals { p = p' },
                ground (arith, result, path),
                (
                  ground (
                    arith,
                    counted,
                    same,
                    count,
                    count_at-begin size d.p (suc k) t.j0 (ground arith) inside taken,
                  ),
                  λ i pos' le'. keeps i (rw same (rows-next k d.p t.j0 taken rows i pos' le')),
                ),
              )
          | inr endless ↦ inr (endless, ground (arith, endless.1 (suc size)))
        ]

  pub assign_rows_outcome :
      (k : ℕ)
      → k ≤ size
      → ((d : Duals G) × (assign_rows cost size k ≡ some d) × IsMatched k d)
        ⊎ ((assign_rows cost size k ≡ none)
            × (i : ℕ) × (d : Duals G) × (assign_rows cost size i ≡ some d)
            × IsEndless ieee cost size (begin_row (suc i) d))
  unfolding assign_rows
  assign_rows_outcome zero le = inl (
    record { u = λ _. g.nought; v = λ _. g.nought; p = λ _. 0; way = λ _. 0 },
    refl,
    (
      sum_over_zero occupied (suc size) (put (λ _. 0) 0 0) (λ i. ground arith),
      λ i pos le. absurd (omega arith),
    ),
  )
  assign_rows_outcome (suc k) le = elim (assign_rows_outcome k (omega arith)) [
    | inl (d, result, matched) ↦ elim (assign_row_outcome k d (omega arith) matched) [
      | inl (d', next, matched') ↦ inl (d', ground (arith, result, next), matched')
      | inr (endless, never) ↦ inr (ground (arith, result, never), k, d, result, endless)
    ]
    | inr (never, i, d, before, endless) ↦ inr (ground (arith, never), i, d, before, endless)
  ]

-- A row's entry is a column of that row.
pub columns_row :
    (p : ℕ → ℕ) (n i j : ℕ)
    → 0 < j
    → j ≤ n
    → p j ≡ suc i
    → (columns p n i < n) × (p (suc (columns p n i)) ≡ suc i)
unfolding columns
columns_row p zero i j pos le here = absurd (omega arith)
columns_row p (suc n) i j pos le here = elim (Bool-cases (p (suc n) == suc i)) [
  | inl last ↦ ground (arith, last)
  | inr before ↦ ground (arith, before, columns_row p n i j pos (ground (arith, before, here)) here)
]

pub real_columns-get :
    (m : ℕ) (result : ℕ → ℕ) (i n k : ℕ)
    → get_elem? (real_columns m result i n) k ≡ (
        if ltb k n
        then some (if ltb (result (i + k)) m then some (result (i + k)) else none)
        else none)
unfolding real_columns
real_columns-get m result i zero k = ground arith
real_columns-get m result i (suc n) zero = ground arith
real_columns-get m result i (suc n) (suc k) = ground (arith, real_columns-get m result (suc i) n k)

pub length-real_columns :
    (m : ℕ) (result : ℕ → ℕ) (i n : ℕ) → length (real_columns m result i n) ≡ n
unfolding real_columns
length-real_columns m result i zero = refl
length-real_columns m result i (suc n) = omega (arith, length-real_columns m result (suc i) n)
