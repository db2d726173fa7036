-- ===== src/Yolo/Columns.antt =====
-- The scan over the rows of the classes in auto-targeting/crates/yolov8/src/lib.rs, as each anchor sees it.
use autotargeting.Base.{
  ℕ, zero, suc, ◌+◌, ◌<◌, ◌≡◌, ◌⊎◌, inl, inr, refl, ap, sym, ◌∙◌, true, false, some, List, [], ◌∷◌,
  length, get_elem?, get_elem?-replicate, length-replicate, replicate, Bool-cases, All, All-map,
  arith,
}
use autotargeting.Floats.{Float, IsIeee}
use autotargeting.Yolo.Candidates.{better, scan_row, scan_classes, best_classes, element}

module _ {F : Type 0} ⦃f : Float F⦄ where
  -- The scores of one anchor, by class.
  unfoldable pub column : List (List F) → ℕ → List F
  column [] a = []
  column (row ∷ rows) a = element row a ∷ column rows a

  -- The best of a column, from the class `c` on.
  unfoldable pub best_in : ℕ → List F → F × ℕ → F × ℕ
  best_in c [] b = b
  best_in c (s ∷ ss) b = best_in (suc c) ss (better c s b)

  length-scan_row :
      (c : ℕ) (row : List F) (best : List (F × ℕ))
      → length row ≡ length best
      → length (scan_row c row best) ≡ length best
  unfolding scan_row
  length-scan_row c [] best h = refl
  length-scan_row c (s ∷ ss) [] h = refl
  length-scan_row c (s ∷ ss) (b ∷ bs) h = omega (arith, length-scan_row c ss bs (omega arith))

  scan_row-at :
      (c a : ℕ) (row : List F) (best : List (F × ℕ)) (b : F × ℕ)
      → length row ≡ length best
      → get_elem? best a ≡ some b
      → get_elem? (scan_row c row best) a ≡ some (better c (element row a) b)
  unfolding scan_row element
  scan_row-at c a [] [] b h e = absurd (cc e)
  scan_row-at c a [] (x ∷ bs) b h e = absurd (omega arith)
  scan_row-at c a (s ∷ ss) [] b h e = absurd (omega arith)
  scan_row-at c zero (s ∷ ss) (x ∷ bs) b h e = cc e
  scan_row-at c (suc a) (s ∷ ss) (x ∷ bs) b h e = scan_row-at c a ss bs b (omega arith) e

  scan_classes-column :
      (c a : ℕ) (rows : List (List F)) (best : List (F × ℕ)) (b : F × ℕ)
      → All (λ row. length row ≡ length best) rows
      → get_elem? best a ≡ some b
      → get_elem? (scan_classes c rows best) a ≡ some (best_in c (column rows a) b)
  unfolding scan_classes column best_in
  scan_classes-column c a [] best b all e = e
  scan_classes-column c a (row ∷ rows) best b all e =
      let same = length-scan_row c row best all.0 in
      scan_classes-column (suc c) a rows (scan_row c row best) (better c (element row a) b)
        (All-map (λ (r : List F). length r ≡ length best)
          (λ (r : List F). length r ≡ length (scan_row c row best)) (λ r h. omega (arith, h, same))
          rows all.1)
        (scan_row-at c a row best b all.0 e)

  -- No score is greater than the one found.
  abbrev IsUpper : F → List F → Type 0
  IsUpper top = All (λ (s : F). f.lt top s ≡ false)

module _ {F : Type 0} ⦃f : Float F⦄ (laws : IsIeee F) where
  lt_chain : (b n s : F) → f.lt b n ≡ true → f.lt b s ≡ false → f.lt n s ≡ false
  lt_chain b n s h k = elim (Bool-cases (f.lt n s)) [
    | inr e ↦ e
    | inl e ↦ ground (arith, laws.lt_split n s b n e h, laws.lt_asym n s e)
  ]

  better-lt :
      (c : ℕ) (t : F) (b : F × ℕ) (s : F) → f.lt b.0 s ≡ false → f.lt (better c t b).0 s ≡ false
  unfolding better
  better-lt c t b s h = elim (Bool-cases (f.lt b.0 t)) [
    | inl e ↦ rw e (lt_chain b.0 t s e h)
    | inr e ↦ rw e h
  ]

  not_below_self : (s : F) → f.lt s s ≡ false
  not_below_self s = elim (Bool-cases (f.lt s s)) [ inl e ↦ laws.lt_asym s s e | inr e ↦ e ]

  better-own : (c : ℕ) (s : F) (b : F × ℕ) → f.lt (better c s b).0 s ≡ false
  unfolding better
  better-own c s b = elim (Bool-cases (f.lt b.0 s)) [
    | inl e ↦ rw e (not_below_self s)
    | inr e ↦ rw e e
  ]

  -- The score only grows.
  best_in-lt :
      (c : ℕ) (ss : List F) (b : F × ℕ) (s : F)
      → f.lt b.0 s ≡ false
      → f.lt (best_in c ss b).0 s ≡ false
  unfolding best_in
  best_in-lt c [] b s h = h
  best_in-lt c (t ∷ ss) b s h = best_in-lt (suc c) ss (better c t b) s (better-lt c t b s h)

  best_in-IsUpper : (c : ℕ) (ss : List F) (b : F × ℕ) → IsUpper (best_in c ss b).0 ss
  unfolding best_in
  best_in-IsUpper c [] b = tt
  best_in-IsUpper c (s ∷ ss) b = (
    best_in-lt (suc c) ss (better c s b) s (better-own c s b),
    best_in-IsUpper (suc c) ss (better c s b),
  )

module _ {F : Type 0} ⦃f : Float F⦄ where
  better_win : (c : ℕ) (s : F) (b : F × ℕ) → f.lt b.0 s ≡ true → better c s b ≡ (s, c)
  unfolding better
  better_win c s b e = rw e refl

  better_loss : (c : ℕ) (s : F) (b : F × ℕ) → f.lt b.0 s ≡ false → better c s b ≡ b
  unfolding better
  better_loss c s b e = rw e refl

  -- It is the first guess, or the score of the class that it names.
  abbrev IsFrom : ℕ → List F → F × ℕ → F × ℕ → Type 0
  IsFrom c ss b r = (r ≡ b) ⊎ ((k : ℕ) × (get_elem? ss k ≡ some r.0) × (r.1 ≡ c + k))

  best_in-IsFrom : (c : ℕ) (ss : List F) (b : F × ℕ) → IsFrom c ss b (best_in c ss b)
  unfolding best_in
  best_in-IsFrom c [] b = inl refl
  best_in-IsFrom c (s ∷ ss) b = elim (best_in-IsFrom (suc c) ss (better c s b)) [
    | inr later ↦ inr (suc later.0, later.1, omega (arith, later.2))
    | inl here ↦ elim (Bool-cases (f.lt b.0 s)) [
      | inl e ↦
          let p = here ∙ better_win c s b e in
          inr (0, sym (ap (λ (r : F × ℕ). some r.0) p), omega (arith, ap (λ (r : F × ℕ). r.1) p))
      | inr e ↦ inl (here ∙ better_loss c s b e)
    ]
  ]

  -- After the scan of all the classes, row after row, every anchor has a score that none of its own
  -- scores is greater than: it is its score at the class that is named, or minus infinity with the
  -- class 0 where no score is greater than that.
  pub best_classes-IsBest :
      IsIeee F
      → (rows : List (List F)) (n a : ℕ) → All (λ row. length row ≡ n) rows
      → a < n
      → (r : F × ℕ) × (get_elem? (best_classes n rows) a ≡ some r)
        × All (λ (s : F). f.lt r.0 s ≡ false) (column rows a)
        × ((r ≡ (f.neg f.infinity, 0)) ⊎ (get_elem? (column rows a) r.1 ≡ some r.0))
  unfolding best_classes
  best_classes-IsBest laws rows n a all below =
      let start : F × ℕ = (f.neg f.infinity, 0) in
      let size = length-replicate n start in
      let same =
        All-map (λ (r : List F). length r ≡ n)
          (λ (r : List F). length r ≡ length (replicate n start)) (λ r h. omega (arith, h, size))
          rows all in
      let found =
        scan_classes-column 0 a rows (replicate n start) start same
          (get_elem?-replicate n a start below) in
      (
        best_in 0 (column rows a) start,
        found,
        best_in-IsUpper laws 0 (column rows a) start,
        elim (best_in-IsFrom 0 (column rows a) start) [
          | inl first ↦ inl first
          | inr (k, score, id) ↦
              let named : (best_in 0 (column rows a) start).1 ≡ k = omega (arith, id) in
              inr (ap (λ (i : ℕ). get_elem? (column rows a) i) named ∙ score)
        ],
      )
