-- ===== src/Assignment.antt =====
-- auto-targeting/crates/target-tracker/src/hungarian.rs: the assignment of detections to tracks. Arrays
-- are functions of their index. `F` stands for `f32`, `G` for `f64`. The two loops without a bound run
-- on fuel, and are `none` where it runs out; `none` is also the panic on a row that is too short.
pub mod Scans
pub mod Rounds
pub mod Search
pub mod Paths
pub mod Matching
pub mod Outcome
mod Tests
use autotargeting.Base.{
  ℕ, zero, suc, ◌+◌, ◌-◌, max, Bool, true, false, ◌&&◌, ◌||◌, Option, none, some, List, [], ◌∷◌,
  if◌then◌else◌, ltb, leb, ◌==◌, put, length, get_elem?, and_then, map_option, replicate,
}
use autotargeting.Floats.{Float}

-- What the rows share: `u`, `v`, `p` (the row of a column, 0 for none) and `way`.
pub record Duals (G : Type 0) : Type 0 where
  pub u : ℕ → G
  pub v : ℕ → G
  pub p : ℕ → ℕ
  pub way : ℕ → ℕ

-- What the search for one row's path has besides.
pub record Frontier (G : Type 0) : Type 0 where
  pub duals : Duals G
  pub minv : ℕ → G
  pub used : ℕ → Bool
  pub j0 : ℕ

-- The variables of the scan over the columns.
pub record Scan (G : Type 0) : Type 0 where
  pub minv : ℕ → G
  pub way : ℕ → ℕ
  pub delta : G
  pub j1 : ℕ

module _ {G : Type 0} ⦃g : Float G⦄ where
  unfoldable pub adjust_at : G → ℕ → Frontier G → Frontier G
  adjust_at delta j s =
      let row = s.duals.p j in
      if s.used j
      then record s {
        duals = record s.duals {
          u = put s.duals.u row (g.add (s.duals.u row) delta);
          v = put s.duals.v j (g.sub (s.duals.v j) delta);
        };
      }
      else record s { minv = put s.minv j (g.sub (s.minv j) delta) }

  -- The columns from 0 to `n`.
  unfoldable pub adjust : G → ℕ → Frontier G → Frontier G
  unfolding adjust_at
  adjust delta zero s = adjust_at delta 0 s
  adjust delta (suc n) s = adjust_at delta (suc n) (adjust delta n s)

  abbrev pub mark : Frontier G → Frontier G
  mark s = record s { used = put s.used s.j0 true }

  -- The search for row `i` begins.
  abbrev pub begin_row : ℕ → Duals G → Frontier G
  begin_row i d = record {
    duals = record d { p = put d.p 0 i };
    minv = λ _. g.infinity;
    used = λ _. false;
    j0 = 0;
  }

unfoldable pub augment : (ℕ → ℕ) → ℕ → (ℕ → ℕ) → ℕ → Option (ℕ → ℕ)
augment way zero p j0 = none
augment way (suc fuel) p j0 =
    let j1 = way j0 in
    let shifted = put p j0 (p j1) in
    let rest = augment way fuel shifted j1 in if j1 == 0 then some shifted else rest

module _ {G : Type 0} ⦃g : Float G⦄ (cost : ℕ → ℕ → G) (size : ℕ) where
  unfoldable pub scan_at : Frontier G → ℕ → Scan G → Scan G
  scan_at s j c =
      if s.used j
      then c
      else let i0 = s.duals.p s.j0 in
        let cur = g.sub (g.sub (cost i0 j) (s.duals.u i0)) (s.duals.v j) in
        let closer = g.lt cur (c.minv j) in
        let minv = if closer then put c.minv j cur else c.minv in
        let way = if closer then put c.way j s.j0 else c.way in
        if g.lt (minv j) c.delta
        then record { minv = minv; way = way; delta = minv j; j1 = j }
        else record { minv = minv; way = way; delta = c.delta; j1 = c.j1 }

  -- The columns from 1 to `n`.
  unfoldable pub scan : Frontier G → ℕ → Scan G
  unfolding scan_at
  scan s zero = record { minv = s.minv; way = s.duals.way; delta = g.infinity; j1 = 0 }
  scan s (suc n) = scan_at s (suc n) (scan s n)

  -- One round of the search: mark the column, scan, adjust, and go on to the column that was found.
  unfoldable pub round : Frontier G → Frontier G
  unfolding scan adjust
  round s =
      let marked = mark s in
      let c = scan marked size in
      let scanned = record marked { minv = c.minv; duals = record marked.duals { way = c.way } } in
      record (adjust c.delta size scanned) { j0 = c.j1 }

  unfoldable pub search : ℕ → Frontier G → Option (Frontier G)
  unfolding round
  search zero s = none
  search (suc fuel) s =
      let next = round s in
      let rest = search fuel next in if next.duals.p next.j0 == 0 then some next else rest

  -- The body of the outer loop. The search needs a round for each column, the path is no longer.
  unfoldable pub assign_row : ℕ → Duals G → Option (Duals G)
  unfolding search augment
  assign_row i d = and_then (search (suc size) (begin_row i d)) λ s.
      map_option (λ p. record s.duals { p = p }) (augment s.duals.way (suc size) s.duals.p s.j0)

  unfoldable pub assign_rows : ℕ → Option (Duals G)
  unfolding assign_row
  assign_rows zero =
      some (record { u = λ _. g.nought; v = λ _. g.nought; p = λ _. 0; way = λ _. 0 })
  assign_rows (suc i) = and_then (assign_rows i) (assign_row (suc i))

-- `result` after the columns from 1 to `n`.
unfoldable pub columns : (ℕ → ℕ) → ℕ → ℕ → ℕ
columns p zero = λ _. 0
columns p (suc j) =
    let before = columns p j in if ltb 0 (p (suc j)) then put before (p (suc j) - 1) j else before

-- What is pushed for rows `i` up to `i + n`: `None` for a padding column.
unfoldable pub real_columns : ℕ → (ℕ → ℕ) → ℕ → ℕ → List (Option ℕ)
real_columns m result i zero = []
real_columns m result i (suc n) =
    (if ltb (result i) m then some (result i) else none) ∷ real_columns m result (suc i) n

-- Every row has `m` columns at least.
unfoldable pub covers {ℓ} : {A : Type ℓ} → ℕ → List (List A) → Bool
covers m [] = true
covers m (row ∷ rows) = leb m (length row) && covers m rows

module _ {F G : Type 0} ⦃f : Float F⦄ ⦃g : Float G⦄ (widen : F → G) where
  -- The square matrix, indexed from 1, with 1e6 for padding.
  unfoldable pub padded : List (List F) → ℕ → ℕ → ℕ → G
  padded costs m zero j = g.nought
  padded costs m (suc i) zero = g.nought
  padded costs m (suc i) (suc j) =
      if ltb i (length costs) && ltb j m
      then elim (and_then (get_elem? costs i) λ row. get_elem? row j) [
        | some c ↦ widen c
        | none ↦ g.nought
      ]
      else widen (f.literal 1_000_000 0)

  unfoldable pub solve : List (List F) → Option (List (Option ℕ))
  unfolding assign_rows columns real_columns padded covers
  solve [] = some []
  solve (first ∷ rows) =
      let n = length (first ∷ rows) in
      let m = length first in
      let size = max n m in
      if m == 0
      then some (replicate n none)
      else if covers m rows
      then map_option (λ d. real_columns m (columns d.p size) 0 n)
          (assign_rows (padded (first ∷ rows) m) size size)
      else none
