-- ===== src/Assignment/Scans.antt =====
-- What one scan and one adjustment do to the arrays.
use autotargeting.Base.{
  ℕ, zero, suc, ◌≤◌, ◌<◌, ◌≡◌, ◌⊎◌, inl, refl, true, false, if◌then◌else◌, leb, arith,
}
use native.Mathlib.Decide.{dec_lt}
use autotargeting.Floats.{Float, IsIeee}
use autotargeting.Assignment.{Frontier, scan_at, scan, adjust_at, adjust}

module _ {G : Type 0} ⦃g : Float G⦄ (ieee : IsIeee G) (cost : ℕ → ℕ → G) (size : ℕ)
    (s : Frontier G) where
  -- The column that is found is an unused one with a price below infinity.
  pub scan_found :
      (n : ℕ)
      → let c = scan cost size s n in
        (c.j1 ≡ 0)
        ⊎ ((0 < c.j1) × (c.j1 ≤ n) × (s.used c.j1 ≡ false) × (g.lt (c.minv c.j1) g.infinity ≡ true))
  unfolding scan scan_at
  scan_found zero = inl refl
  scan_found (suc n) =
      let d = scan cost size s (suc n) in
      ground (arith, scan_found n, ieee.lt_infinity (d.minv (suc n)) (scan cost size s n).delta)

  -- A column's price and way change only together, and only when it is unused.
  pub scan_ways :
      (n j : ℕ)
      → let c = scan cost size s n in
        ((c.way j ≡ s.duals.way j) × (c.minv j ≡ s.minv j))
        ⊎ ((c.way j ≡ s.j0) × (s.used j ≡ false) × (j ≤ n))
  unfolding scan scan_at
  scan_ways zero j = inl (refl, refl)
  scan_ways (suc n) j = ground (arith, scan_ways n j)

  -- Where no column is found, no unused one has a price below infinity.
  pub scan_blocked :
      (n : ℕ)
      → let c = scan cost size s n in
        c.j1 ≡ 0
        → (c.delta ≡ g.infinity)
          × ((j : ℕ) → 0 < j → j ≤ n → s.used j ≡ false → g.lt (c.minv j) g.infinity ≡ false)
  unfolding scan scan_at
  scan_blocked zero h = (refl, λ j pos le. absurd (omega arith))
  scan_blocked (suc n) h =
      let (unbounded, others) = scan_blocked n (ground arith) in
      (
        ground (arith, unbounded),
        λ j pos le free. elim (dec_lt j (suc n)) [
          | yes below ↦ ground (arith, unbounded, others j pos (omega arith) free)
          | no last ↦ ground (arith, unbounded)
        ],
      )

  -- Where nothing is below infinity in the first place, nothing changes.
  pub scan_dead :
      (n : ℕ)
      → ((j : ℕ) → 0 < j → j ≤ n → s.used j ≡ false → s.minv j ≡ g.nan)
      → let c = scan cost size s n in (c.j1 ≡ 0) × (c.delta ≡ g.infinity) × (c.minv ≡ s.minv)
  unfolding scan scan_at
  scan_dead zero dead = (refl, refl, refl)
  scan_dead (suc n) dead =
      let i0 = s.duals.p s.j0 in
      let cur = g.sub (g.sub (cost i0 (suc n)) (s.duals.u i0)) (s.duals.v (suc n)) in
      ground (
        arith,
        scan_dead n (λ j pos le. dead j pos (omega arith)),
        dead (suc n) (omega arith) (omega arith),
        ieee.lt_nan cur,
        ieee.nan_lt g.infinity,
      )

module _ {G : Type 0} ⦃g : Float G⦄ (delta : G) where
  -- An adjustment changes `u`, `v` and the prices of the unused columns.
  pub adjust_keeps :
      (n : ℕ) (s : Frontier G)
      → let t = adjust delta n s in
        (t.duals.p ≡ s.duals.p) × (t.duals.way ≡ s.duals.way) × (t.used ≡ s.used)
  unfolding adjust adjust_at
  adjust_keeps zero s = ground arith
  adjust_keeps (suc n) s = ground (arith, adjust_keeps n s)

  pub adjust_minv :
      (n : ℕ) (s : Frontier G) (j : ℕ)
      → (adjust delta n s).minv j
        ≡ (if s.used j then s.minv j else if leb j n then g.sub (s.minv j) delta else s.minv j)
  unfolding adjust adjust_at
  adjust_minv zero s j = ground arith
  adjust_minv (suc n) s j =
      ground (arith, adjust_minv n s j, adjust_minv n s (suc n), adjust_keeps n s)
