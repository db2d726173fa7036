-- ===== src/Assignment/Rounds.antt =====
-- What one round of the search does, and what holds after `k` rounds.
use autotargeting.Base.{
  ℕ, zero, suc, ◌≤◌, ◌<◌, ◌≡◌, ◌≢◌, ◌⊎◌, inl, inr, Bool, true, false, put, if◌then◌else◌, arith,
  sum_over, sum_over-put, Bool-cases,
}
use autotargeting.Floats.{Float, IsIeee}
use autotargeting.Assignment.{Frontier, scan, mark, round}
use autotargeting.Assignment.Scans.{
  scan_found, scan_ways, scan_blocked, scan_dead, adjust_keeps, adjust_minv,
}

-- Column `j` leads back to column 0 in at most `k` steps of `way`, over used columns.
abbrev pub Leads : (ℕ → ℕ) → (ℕ → Bool) → ℕ → ℕ → ℕ → Type 0
Leads way used size zero j = j ≡ 0
Leads way used size (suc k) j =
    (j ≡ 0) ⊎ ((way j ≤ size) × (used (way j) ≡ true) × Leads way used size k (way j))

Leads-suc :
    (way : ℕ → ℕ) (used : ℕ → Bool) (size k j : ℕ)
    → Leads way used size k j
    → Leads way used size (suc k) j
Leads-suc way used size zero j h = inl h
Leads-suc way used size (suc k) j (inl h) = inl h
Leads-suc way used size (suc k) j (inr (small, seen, rest)) =
    inr (small, seen, Leads-suc way used size k (way j) rest)

-- The ways of used columns stay, and more columns are used.
Leads-mono :
    (way way' : ℕ → ℕ) (used used' : ℕ → Bool) (size k j : ℕ)
    → ((i : ℕ) → used' i ≡ true → way' i ≡ way i)
    → ((i : ℕ) → used i ≡ true → used' i ≡ true)
    → used' j ≡ true
    → Leads way used size k j
    → Leads way' used' size k j
Leads-mono way way' used used' size zero j same more here h = h
Leads-mono way way' used used' size (suc k) j same more here (inl h) = inl h
Leads-mono way way' used used' size (suc k) j same more here (inr (small, seen, rest)) =
    let next = Leads-mono way way' used used' size k (way j) same more (more (way j) seen) rest in
    inr (rw (same j here) (small, more (way j) seen, next))

module _ {G : Type 0} ⦃g : Float G⦄ (ieee : IsIeee G) (cost : ℕ → ℕ → G) (size : ℕ)
    (s : Frontier G) where
  pub round_keeps :
      let t = round cost size s in (t.duals.p ≡ s.duals.p) × (t.used ≡ put s.used s.j0 true)
  unfolding round
  round_keeps =
      let c = scan cost size (mark s) size in
      let from = record (mark s) { minv = c.minv; duals = record s.duals { way = c.way } } in
      ground (arith, adjust_keeps c.delta size from)

  pub round_ways :
      (j : ℕ)
      → let t = round cost size s in
        ((t.duals.way j ≡ s.duals.way j)
          × (g.lt (s.minv j) g.infinity ≡ false → g.lt (t.minv j) g.infinity ≡ false))
        ⊎ ((t.duals.way j ≡ s.j0) × (t.used j ≡ false))
  unfolding round
  round_ways j =
      let c = scan cost size (mark s) size in
      let from = record (mark s) { minv = c.minv; duals = record s.duals { way = c.way } } in
      ground (
        arith,
        adjust_keeps c.delta size from,
        adjust_minv c.delta size from j,
        scan_ways ieee cost size (mark s) size j,
        ieee.infinity_sub (c.minv j) c.delta,
      )

  pub round_found :
      let t = round cost size s in
      t.j0 ≢ 0
      → (t.j0 ≤ size)
        × (t.used t.j0 ≡ false)
        × ((t.duals.way t.j0 ≡ s.j0)
            ⊎ ((t.duals.way t.j0 ≡ s.duals.way t.j0) × (g.lt (s.minv t.j0) g.infinity ≡ true)))
  unfolding round
  round_found h =
      let c = scan cost size (mark s) size in
      let from = record (mark s) { minv = c.minv; duals = record s.duals { way = c.way } } in
      ground (
        arith,
        adjust_keeps c.delta size from,
        scan_found ieee cost size (mark s) size,
        scan_ways ieee cost size (mark s) size c.j1,
      )

  -- No unused column has a price below infinity, after the scan.
  abbrev pub IsBlocked : Type 0
  IsBlocked =
      (j : ℕ)
      → 0 < j
      → j ≤ size
      → (mark s).used j ≡ false
      → g.lt ((scan cost size (mark s) size).minv j) g.infinity ≡ false

-- The search is back at column 0 and no unused column has a price.
abbrev pub IsDead : {G : Type 0} ⦃g : Float G⦄ → ℕ → Frontier G → Type 0
IsDead ⦃g⦄ size s =
    (s.j0 ≡ 0)
    × (s.duals.p 0 ≢ 0)
    × ((j : ℕ) → 0 < j → j ≤ size → s.used j ≡ false → s.minv j ≡ g.nan)

module _ {G : Type 0} ⦃g : Float G⦄ (ieee : IsIeee G) (cost : ℕ → ℕ → G) (size : ℕ)
    (s : Frontier G) where
  pub round_blocked :
      s.duals.p 0 ≢ 0
      → (round cost size s).j0 ≡ 0
      → IsBlocked ieee cost size s × IsDead size (round cost size s)
  unfolding round
  round_blocked row h =
      let c = scan cost size (mark s) size in
      let from = record (mark s) { minv = c.minv; duals = record s.duals { way = c.way } } in
      let (unbounded, others) = scan_blocked ieee cost size (mark s) size h in
      let kept = adjust_keeps c.delta size from in
      (
        others,
        (
          h,
          ground (arith, kept),
          λ j pos le free.
              let priced = others j pos le (ground (arith, kept)) in
              ground (
                arith,
                kept,
                unbounded,
                adjust_minv c.delta size from j,
                priced,
                ieee.sub_infinity (c.minv j) priced,
              ),
        ),
      )

  pub round-IsDead : IsDead size s → IsDead size (round cost size s)
  unfolding round
  round-IsDead (at_start, row, dead) =
      let c = scan cost size (mark s) size in
      let from = record (mark s) { minv = c.minv; duals = record s.duals { way = c.way } } in
      let (back, unbounded, same) =
        scan_dead ieee cost size (mark s) size (λ j pos le free. dead j pos le (ground arith)) in
      let kept = adjust_keeps c.delta size from in
      (
        back,
        ground (arith, kept),
        λ j pos le free.
            let nan = dead j pos le (ground (arith, kept)) in
            ground (
              arith,
              kept,
              same,
              unbounded,
              nan,
              adjust_minv c.delta size from j,
              ieee.sub_infinity g.nan (ieee.nan_lt g.infinity),
            ),
      )

abbrev pub weight : Bool → ℕ
weight b = if b then 1 else 0

module _ {G : Type 0} ⦃g : Float G⦄ where
  -- After `k` rounds that went on.
  pub record Inv (size k : ℕ) (s : Frontier G) : Type 0 where
    pub seen :
        (j : ℕ)
        → s.used j ≡ true
        → (j ≤ size) × (s.duals.p j ≢ 0) × Leads s.duals.way s.used size k j
    pub here : (s.j0 ≤ size) × (s.used s.j0 ≡ false) × Leads s.duals.way s.used size k s.j0
    pub priced :
        (j : ℕ)
        → s.used j ≡ false
        → (g.lt (s.minv j) g.infinity ≡ false)
          ⊎ ((s.duals.way j ≤ size) × (s.used (s.duals.way j) ≡ true))
    pub counted : sum_over weight (suc size) s.used ≡ k

module _ {G : Type 0} ⦃g : Float G⦄ (ieee : IsIeee G) (cost : ℕ → ℕ → G) (size k : ℕ)
    (s : Frontier G) where
  seen_next :
      Inv size k s
      → s.duals.p s.j0 ≢ 0
      → let t = round cost size s in
        (j : ℕ)
        → t.used j ≡ true
        → (j ≤ size) × (t.duals.p j ≢ 0) × Leads t.duals.way t.used size k j
  seen_next inv row j is_used =
      let t = round cost size s in
      let (same_p, more) = round_keeps ieee cost size s in
      let moved =
        Leads-mono s.duals.way t.duals.way s.used t.used size k j
          (λ i seen. ground (arith, round_ways ieee cost size s i)) (λ i seen. ground (arith, more))
          is_used in
      elim (Bool-cases (s.used j)) [
        | inl before ↦
            let (small, taken, leads) = inv.seen j before in
            (small, ground (arith, same_p), moved leads)
        | inr new ↦
            let at_j0 : j ≡ s.j0 = ground (arith, more) in
            let (small, _, leads) = inv.here in
            (ground (arith, at_j0), ground (arith, same_p, at_j0), moved (rw at_j0 leads))
      ]

  pub round-Inv :
      Inv size k s
      → s.duals.p s.j0 ≢ 0
      → (round cost size s).j0 ≢ 0
      → Inv size (suc k) (round cost size s)
  round-Inv inv row found =
      let t = round cost size s in
      let (same_p, more) = round_keeps ieee cost size s in
      let (inside, unused, from) = round_found ieee cost size s found in
      let seen = seen_next inv row in
      let reached : t.used s.j0 ≡ true = ground (arith, more) in
      record {
        seen = λ j is_used.
            let (small, taken, leads) = seen j is_used in
            (small, taken, Leads-suc t.duals.way t.used size k j leads);
        here =
            let (small, back) : (t.duals.way t.j0 ≤ size) × (t.used (t.duals.way t.j0) ≡ true) =
              ground (arith, from, inv.here, more, reached, inv.priced t.j0) in
            let (_, _, leads) = seen (t.duals.way t.j0) back in
            (inside, unused, inr (small, back, leads));
        priced = λ j free.
            ground (arith, round_ways ieee cost size s j, inv.here, more, reached, inv.priced j);
        counted =
            ground
              (arith, more, inv.here, inv.counted, sum_over-put weight (suc size) s.used s.j0 true);
      }
