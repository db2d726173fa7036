-- ===== src/Suppression/Greedy.antt =====
-- What is kept: detections that do not overlap, and one over each that is dropped.
use autotargeting.Base.{
  ℕ, zero, suc, ◌≤◌, ◌≡◌, ◌⊎◌, refl, inl, inr, Bool, true, false, List, [], ◌∷◌, length, All, Any,
  All-map, arith,
}
use autotargeting.Floats.{Float}
use autotargeting.Detections.{Detection, iou}
use autotargeting.Suppression.{
  insert_sorted, sort_onto, sort_descending, suppress, keep_from, unmarked, non_max_suppression,
}

module _ {F : Type 0} ⦃f : Float F⦄ (threshold : F) where
  abbrev pub overlaps : Detection F → Detection F → Bool
  overlaps d e = f.lt threshold (iou d.bbox e.bbox)

  -- No detection overlaps a later one.
  abbrev pub IsApart : List (Detection F) → Type 0
  IsApart [] = Unit
  IsApart (d ∷ ds) = All (λ e. overlaps d e ≡ false) ds × IsApart ds

  -- It is among the kept ones, or one of them overlaps it.
  abbrev pub IsCovered : List (Detection F) → Detection F → Type 0
  IsCovered kept d = Any (λ k. (k ≡ d) ⊎ (overlaps k d ≡ true)) kept

  suppress-marked :
      (P : Detection F → Type 0) (d : Detection F) (ds : List (Detection F × Bool))
      → All (λ e. (e.1 ≡ true) ⊎ P e.0) ds
      → All (λ e. (e.1 ≡ true) ⊎ P e.0) (suppress threshold d ds)
  unfolding suppress
  suppress-marked P d [] h = tt
  suppress-marked P d ((e, s) ∷ es) h = (ground arith, suppress-marked P d es h.1)

  suppress-apart :
      (d : Detection F) (ds : List (Detection F × Bool))
      → All (λ e. (e.1 ≡ true) ⊎ (overlaps d e.0 ≡ false)) (suppress threshold d ds)
  unfolding suppress
  suppress-apart d [] = tt
  suppress-apart d ((e, s) ∷ es) = (ground arith, suppress-apart d es)

  keep_from-All :
      (P : Detection F → Type 0) (n : ℕ) (ds : List (Detection F × Bool))
      → All (λ e. (e.1 ≡ true) ⊎ P e.0) ds
      → All P (keep_from n threshold ds)
  unfolding keep_from
  keep_from-All P zero ds h = tt
  keep_from-All P (suc n) [] h = tt
  keep_from-All P (suc n) ((d, true) ∷ ds) h = keep_from-All P n ds h.1
  keep_from-All P (suc n) ((d, false) ∷ ds) h =
      (ground arith, keep_from-All P n (suppress threshold d ds) (suppress-marked P d ds h.1))

  keep_from-IsApart : (n : ℕ) (ds : List (Detection F × Bool)) → IsApart (keep_from n threshold ds)
  unfolding keep_from
  keep_from-IsApart zero ds = tt
  keep_from-IsApart (suc n) [] = tt
  keep_from-IsApart (suc n) ((d, true) ∷ ds) = keep_from-IsApart n ds
  keep_from-IsApart (suc n) ((d, false) ∷ ds) = (
    keep_from-All (λ e. overlaps d e ≡ false) n (suppress threshold d ds) (suppress-apart d ds),
    keep_from-IsApart n (suppress threshold d ds),
  )

  suppress-back :
      (P : Detection F → Type 0) (d : Detection F) (ds : List (Detection F × Bool))
      → All (λ e. (e.1 ≡ true) ⊎ P e.0) (suppress threshold d ds)
      → All (λ e. (e.1 ≡ true) ⊎ (overlaps d e.0 ≡ true) ⊎ P e.0) ds
  unfolding suppress
  suppress-back P d [] h = tt
  suppress-back P d ((e, s) ∷ es) h = (ground arith, suppress-back P d es h.1)

  length-suppress :
      (d : Detection F) (ds : List (Detection F × Bool))
      → length (suppress threshold d ds) ≡ length ds
  unfolding suppress
  length-suppress d [] = refl
  length-suppress d (e ∷ es) = omega (arith, length-suppress d es)

  keep_from-IsCovered :
      (n : ℕ) (ds : List (Detection F × Bool))
      → length ds ≤ n
      → All (λ e. (e.1 ≡ true) ⊎ IsCovered (keep_from n threshold ds) e.0) ds
  unfolding keep_from
  keep_from-IsCovered zero [] h = tt
  keep_from-IsCovered zero (d ∷ ds) h = absurd (omega arith)
  keep_from-IsCovered (suc n) [] h = tt
  keep_from-IsCovered (suc n) ((d, true) ∷ ds) h =
      (inl refl, keep_from-IsCovered n ds (omega arith))
  keep_from-IsCovered (suc n) ((d, false) ∷ ds) h =
      let marked = suppress threshold d ds in
      (
        inr (inl (inl refl)),
        All-map _ _ (λ e h. ground arith) ds
            (suppress-back (IsCovered (keep_from n threshold marked)) d ds
              (keep_from-IsCovered n marked (omega (arith, length-suppress d ds)))),
      )

  unmarked-All :
      (P : Detection F → Type 0) (ds : List (Detection F))
      → All P ds
      → All (λ e. (e.1 ≡ true) ⊎ P e.0) (unmarked ds)
  unmarked-All P [] h = tt
  unmarked-All P (d ∷ ds) h = (inr h.0, unmarked-All P ds h.1)

  unmarked-back :
      (P : Detection F → Type 0) (ds : List (Detection F))
      → All (λ e. (e.1 ≡ true) ⊎ P e.0) (unmarked ds)
      → All P ds
  unmarked-back P [] h = tt
  unmarked-back P (d ∷ ds) h = (ground arith, unmarked-back P ds h.1)

  length-unmarked : (ds : List (Detection F)) → length (unmarked ds) ≡ length ds
  length-unmarked [] = refl
  length-unmarked (d ∷ ds) = omega (arith, length-unmarked ds)

module _ {F : Type 0} ⦃f : Float F⦄ where
  insert_sorted-All :
      (P : Detection F → Type 0) (d : Detection F) (es : List (Detection F))
      → P d
      → All P es
      → All P (insert_sorted d es)
  unfolding insert_sorted
  insert_sorted-All P d [] p h = (p, tt)
  insert_sorted-All P d (e ∷ es) p h = ground (arith, insert_sorted-All P d es p h.1)

  insert_sorted-back :
      (P : Detection F → Type 0) (d : Detection F) (es : List (Detection F))
      → All P (insert_sorted d es)
      → P d × All P es
  unfolding insert_sorted
  insert_sorted-back P d [] h = (h.0, tt)
  insert_sorted-back P d (e ∷ es) h = ground (arith, insert_sorted-back P d es)

  sort_onto-All :
      (P : Detection F → Type 0) (sorted ds : List (Detection F))
      → All P sorted
      → All P ds
      → All P (sort_onto sorted ds)
  unfolding sort_onto
  sort_onto-All P sorted [] h k = h
  sort_onto-All P sorted (d ∷ ds) h k =
      sort_onto-All P (insert_sorted d sorted) ds (insert_sorted-All P d sorted k.0 h) k.1

  sort_onto-back :
      (P : Detection F → Type 0) (sorted ds : List (Detection F))
      → All P (sort_onto sorted ds)
      → All P sorted × All P ds
  unfolding sort_onto
  sort_onto-back P sorted [] h = (h, tt)
  sort_onto-back P sorted (d ∷ ds) h =
      let (inserted, rest) = sort_onto-back P (insert_sorted d sorted) ds h in
      let (here, before) = insert_sorted-back P d sorted inserted in (before, (here, rest))

  All-self : (ds : List (Detection F)) → All (λ e. Any (λ d. d ≡ e) ds) ds
  All-self [] = tt
  All-self (d ∷ ds) = (inl refl, All-map _ _ (λ e h. inr h) ds (All-self ds))

  -- Whatever the threshold, the detections that are kept are among those given, none of them overlaps
  -- a later one, and every detection given is kept or overlapped by one that is.
  pub non_max_suppression-IsCovered :
      (ds : List (Detection F)) (threshold : F)
      → let kept = non_max_suppression ds threshold in
        IsApart threshold kept
        × All (IsCovered threshold kept) ds
        × All (λ k. Any (λ d. d ≡ k) ds) kept
  unfolding non_max_suppression sort_descending
  non_max_suppression-IsCovered ds threshold =
      let sorted = sort_descending ds in
      let flagged = unmarked sorted in
      let n = length sorted in
      (
        keep_from-IsApart threshold n flagged,
        (sort_onto-back (IsCovered threshold (keep_from n threshold flagged)) [] ds (
            unmarked-back threshold (IsCovered threshold (keep_from n threshold flagged)) sorted (
              keep_from-IsCovered threshold n flagged
                (omega (arith, length-unmarked threshold sorted))))).1,
        keep_from-All threshold (λ k. Any (λ d. d ≡ k) ds) n flagged
            (unmarked-All threshold (λ k. Any (λ d. d ≡ k) ds) sorted
              (sort_onto-All (λ k. Any (λ d. d ≡ k) ds) [] ds tt (All-self ds))),
      )
