-- ===== src/Assignment/Outcome.antt =====
-- What `solve` gives its caller.
use autotargeting.Base.{
  ℕ, zero, suc, ◌≤◌, ◌<◌, ◌≡◌, ◌≢◌, ◌⊎◌, inl, inr, refl, true, ◌==◌, max, arith, Bool-cases, Option,
  none, some, List, [], ◌∷◌, length, get_elem?, replicate, length-replicate,
}
use autotargeting.Floats.{Float, IsIeee}
use autotargeting.Assignment.{
  Duals, begin_row, assign_rows, columns, real_columns, padded, covers, solve,
}
use autotargeting.Assignment.Search.{IsEndless}
use autotargeting.Assignment.Matching.{
  assign_rows_outcome, columns_row, real_columns-get, length-real_columns,
}

-- The length of the first row.
abbrev pub width : {F : Type 0} → List (List F) → ℕ
width [] = 0
width (row ∷ rows) = length row

-- An entry for each of `n` rows: columns below `m`, none of them twice; each row has one if there are
-- enough.
pub record IsMatching (n m : ℕ) (r : List (Option ℕ)) : Type 0 where
  pub rows : length r ≡ n
  pub below : (i c : ℕ) → get_elem? r i ≡ some (some c) → c < m
  pub distinct : (i k c : ℕ) → get_elem? r i ≡ some (some c) → get_elem? r k ≡ some (some c) → i ≡ k
  pub whole : n ≤ m → 0 < m → (i : ℕ) → get_elem? r i ≢ some none

covers-zero {ℓ} : {A : Type ℓ} (rows : List (List A)) → covers 0 rows ≡ true
unfolding covers
covers-zero [] = refl
covers-zero (row ∷ rows) = ground (arith, covers-zero rows)

nobody : (n i c : ℕ) → get_elem? (replicate {A = Option ℕ} n none) i ≢ some (some c)
nobody zero i c e = ground (arith, e)
nobody (suc n) zero c e = ground (arith, e)
nobody (suc n) (suc i) c e = nobody n i c e

nobody-IsMatching : (n : ℕ) → IsMatching n 0 (replicate n none)
nobody-IsMatching n = record {
  rows = length-replicate n none;
  below = λ i c e. absurd (nobody n i c e);
  distinct = λ i k c e. absurd (nobody n i c e);
  whole = λ enough some_column. absurd (omega arith);
}

module _ {G : Type 0} ⦃g : Float G⦄ where
  real_columns-IsMatching :
      (n m : ℕ) (d : Duals G)
      → ((i : ℕ) → 0 < i → i ≤ max n m → (j : ℕ) × (j ≤ max n m) × (j ≢ 0) × (d.p j ≡ i))
      → IsMatching n m (real_columns m (columns d.p (max n m)) 0 n)
  real_columns-IsMatching n m d rows =
      let at : (i : ℕ)
          → i < n
          → (columns d.p (max n m) i < max n m) × (d.p (suc (columns d.p (max n m) i)) ≡ suc i) =
        λ i less.
          let (j, le, pos, here) = rows (suc i) (omega arith) (omega arith) in
          columns_row d.p (max n m) i j (omega arith) le here in
      let gets = real_columns-get m (columns d.p (max n m)) 0 n in
      record {
        rows = length-real_columns m (columns d.p (max n m)) 0 n;
        below = λ i c e. ground (arith, gets i, e);
        distinct = λ i k c e e'. ground (arith, gets i, gets k, e, e', at i, at k);
        whole = λ enough _ i e. ground (arith, gets i, e, at i);
      }

module _ {F G : Type 0} ⦃f : Float F⦄ ⦃g : Float G⦄ (ieee : IsIeee G) (widen : F → G) where
  -- The matrix that the assignment works on.
  abbrev pub IsUnending : List (List F) → Type 0
  IsUnending costs =
      let size = max (length costs) (width costs) in
      let cost = padded widen costs (width costs) in
      (i : ℕ) × (d : Duals G) × (assign_rows cost size i ≡ some d)
      × IsEndless ieee cost size (begin_row (suc i) d)

  solve-covers :
      (costs : List (List F)) (r : List (Option ℕ))
      → solve widen costs ≡ some r
      → covers (width costs) costs ≡ true
  unfolding solve covers
  solve-covers [] r e = refl
  solve-covers (first ∷ rows) r e = ground (arith, e, covers-zero rows)

  solve_outcome :
      (costs : List (List F))
      → covers (width costs) costs ≡ true
      → ((r : List (Option ℕ)) × (solve widen costs ≡ some r)
          × IsMatching (length costs) (width costs) r)
        ⊎ ((solve widen costs ≡ none) × IsUnending costs)
  unfolding solve covers
  solve_outcome [] h = inl ([], refl, nobody-IsMatching 0)
  solve_outcome (first ∷ rows) h =
      let n = length (first ∷ rows) in
      let m = length first in
      elim (Bool-cases (m == 0)) [
        | inl empty ↦
            let no_columns : m ≡ 0 = ground (arith, empty) in
            inl (replicate n none, ground (arith, empty), rw no_columns (nobody-IsMatching n))
        | inr wide ↦
            let matrix = padded widen (first ∷ rows) m in
            elim (assign_rows_outcome ieee matrix (max n m) (max n m) (omega arith)) [
              | inl (d, result, matched) ↦ inl (
                real_columns m (columns d.p (max n m)) 0 n,
                ground (arith, wide, h, result),
                real_columns-IsMatching n m d matched.1,
              )
              | inr (never, i, d, before, endless) ↦
                  inr (ground (arith, wide, h, never), (i, d, before, endless))
            ]
      ]

  -- What is returned is a matching: an entry for each row, columns that exist, none of them twice; if
  -- there are at least as many columns as rows, and any, every row has one.
  pub solve-IsMatching :
      (costs : List (List F)) (r : List (Option ℕ))
      → solve widen costs ≡ some r
      → IsMatching (length costs) (width costs) r
  solve-IsMatching costs r e = elim (solve_outcome costs (solve-covers costs r e)) [
    | inl (r', result, matching) ↦
        let same : r' ≡ r = ground (arith, e, result) in rw same at matching
    | inr (never, _) ↦ ground (arith, e, never)
  ]

  -- The assignment returns, unless for some row the search that starts there comes to a round in which
  -- no unused column has a price below infinity; then it goes on for ever. No row is shorter than the
  -- first.
  pub solve_ends :
      (costs : List (List F))
      → covers (width costs) costs ≡ true
      → ((r : List (Option ℕ)) × (solve widen costs ≡ some r)) ⊎ IsUnending costs
  solve_ends costs h = elim (solve_outcome costs h) [
    | inl (r, result, _) ↦ inl (r, result)
    | inr (_, unending) ↦ inr unending
  ]
