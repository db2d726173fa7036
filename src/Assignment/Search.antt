-- ===== src/Assignment/Search.antt =====
-- The search for a row's path: it reaches a free column, or it goes on for ever.
use autotargeting.Base.{
  ℕ, zero, suc, ◌+◌, ◌≤◌, ◌<◌, ◌≡◌, ◌≢◌, ◌⊎◌, inl, inr, refl, true, put, ◌==◌, arith, Bool-cases,
  sum_over-put, sum_over-le, none, some,
}
use autotargeting.Floats.{Float, IsIeee}
use autotargeting.Assignment.{Frontier, round, search}
use autotargeting.Assignment.Rounds.{
  round_keeps, round_blocked, round-IsDead, round-Inv, Inv, IsBlocked, IsDead, weight,
}

module _ {G : Type 0} ⦃g : Float G⦄ (ieee : IsIeee G) (cost : ℕ → ℕ → G) (size : ℕ) where
  pub rounds : ℕ → Frontier G → Frontier G
  rounds zero s = s
  rounds (suc n) s = rounds n (round cost size s)

  -- A column that has no row.
  abbrev pub IsFree : (ℕ → ℕ) → ℕ → Type 0
  IsFree p c = (0 < c) × (c ≤ size) × (p c ≡ 0)

  -- The search ends at a free column after `k` rounds.
  abbrev pub IsFound : Frontier G → Frontier G → Type 0
  IsFound s t = (t.duals.p ≡ s.duals.p) × (t.duals.p t.j0 ≡ 0) × (k : ℕ) × (k ≤ size) × Inv size k t

  -- Some round finds nothing, and whatever the fuel there is no result.
  abbrev pub IsEndless : Frontier G → Type 0
  IsEndless s =
      ((n : ℕ) × IsBlocked ieee cost size (rounds n s)) × ((n : ℕ) → search cost size n s ≡ none)

  search-dead : (n : ℕ) (s : Frontier G) → IsDead size s → search cost size n s ≡ none
  unfolding search
  search-dead zero s dead = refl
  search-dead (suc n) s dead =
      let next = round-IsDead ieee cost size s dead in
      ground (arith, next, search-dead n (round cost size s) next)

  Inv-bound : (k c : ℕ) (s : Frontier G) → IsFree s.duals.p c → Inv size k s → k ≤ size
  Inv-bound k c s (pos, le, free) inv = ground (
    arith,
    inv.counted,
    inv.seen c,
    sum_over-put weight (suc size) s.used c true,
    sum_over-le weight (λ b. ground arith) (suc size) (put s.used c true),
  )

  -- One round: it finds a free column, is blocked, or goes on.
  round_outcome :
      (k c : ℕ) (s : Frontier G)
      → Inv size k s
      → IsFree s.duals.p c
      → s.duals.p 0 ≢ 0
      → s.duals.p s.j0 ≢ 0
      → let t = round cost size s in
        (t.duals.p ≡ s.duals.p)
        × ((IsBlocked ieee cost size s × IsDead size t) ⊎ ((suc k ≤ size) × Inv size (suc k) t))
  round_outcome k c s inv free row taken =
      let t = round cost size s in
      let (same, _) = round_keeps ieee cost size s in
      (
        same,
        elim (Bool-cases (t.j0 == 0)) [
          | inl back ↦ inl (round_blocked ieee cost size s row (ground (arith, back)))
          | inr on ↦
              let next = round-Inv ieee cost size k s inv taken (ground (arith, on)) in
              inr (Inv-bound (suc k) c t (ground (arith, same)) next, next)
        ],
      )

  search-blocked :
      (s : Frontier G)
      → s.duals.p 0 ≢ 0
      → (round cost size s).duals.p ≡ s.duals.p
      → IsBlocked ieee cost size s × IsDead size (round cost size s)
      → IsEndless s
  unfolding rounds search
  search-blocked s row same (blocked, dead) = ((zero, blocked), λ n. never n)
    where
      never : (n : ℕ) → search cost size n s ≡ none
      never zero = refl
      never (suc n) = ground (arith, dead, row, same, search-dead n (round cost size s) dead)

  IsEndless-next :
      (s : Frontier G)
      → (round cost size s).duals.p (round cost size s).j0 ≢ 0
      → IsEndless (round cost size s)
      → IsEndless s
  unfolding rounds search
  IsEndless-next s taken ((n, blocked), none_after) = ((suc n, blocked), λ n. never n)
    where
      never : (n : ℕ) → search cost size n s ≡ none
      never zero = refl
      never (suc n) = ground (arith, taken, none_after n)

  -- The end of a search, where its first round goes on with `rest`.
  search_from :
      (fuel k c : ℕ) (s : Frontier G)
      → Inv size k s
      → IsFree s.duals.p c
      → s.duals.p 0 ≢ 0
      → s.duals.p s.j0 ≢ 0
      → (let t = round cost size s in
          t.duals.p ≡ s.duals.p
          → t.duals.p t.j0 ≢ 0
          → suc k ≤ size
          → Inv size (suc k) t
          → ((x : Frontier G) × (search cost size fuel t ≡ some x) × IsFound t x) ⊎ IsEndless t)
      → ((x : Frontier G) × (search cost size (suc fuel) s ≡ some x) × IsFound s x) ⊎ IsEndless s
  unfolding search
  search_from fuel k c s inv free row taken rest =
      let t = round cost size s in
      let (same, step) = round_outcome k c s inv free row taken in
      elim step [
        | inl stuck ↦ inr (search-blocked s row same stuck)
        | inr (bound, next) ↦ elim (Bool-cases (t.duals.p t.j0 == 0)) [
          | inl end ↦ inl (t, ground (arith, end), (same, ground (arith, end), suc k, bound, next))
          | inr more ↦
              let open_end : t.duals.p t.j0 ≢ 0 = ground (arith, more) in
              elim (rest same open_end bound next) [
                | inl (x, result, found) ↦
                    let (kept, ended, k', small, last) = found in
                    inl (
                      x,
                      ground (arith, more, result),
                      (ground (arith, kept, same), ended, k', small, last),
                    )
                | inr endless ↦ inr (IsEndless-next s open_end endless)
              ]
        ]
      ]

  pub search_outcome :
      (fuel k c : ℕ) (s : Frontier G)
      → fuel + k ≡ size
      → Inv size k s
      → IsFree s.duals.p c
      → s.duals.p 0 ≢ 0
      → s.duals.p s.j0 ≢ 0
      → ((t : Frontier G) × (search cost size (suc fuel) s ≡ some t) × IsFound s t) ⊎ IsEndless s
  search_outcome zero k c s enough inv free row taken =
      search_from zero k c s inv free row taken (λ same open_end bound next. absurd (omega arith))
  search_outcome (suc fuel) k c s enough inv free row taken =
      search_from (suc fuel) k c s inv free row taken (λ same open_end bound next.
        search_outcome fuel (suc k) c (round cost size s) (omega arith) next (ground (arith, same))
          (ground (arith, same)) open_end)
