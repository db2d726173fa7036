-- ===== src/Base/Chunks.antt =====
-- Slices and their iterators: `[a..][..n]`, `chunks_exact`, and loops over `chunks_exact_mut`.
use Prim.Native.Nat.{ℕ, zero, suc, ◌+◌, ◌-◌, ◌*◌, ◌/◌, ◌≤◌, ◌<◌}
use native.Mathlib.Nat.{mul-le-mul, suc-mul, le_refl}
use mathlib.Core.Path.{◌≡◌, refl, ap}
use mathlib.Core.Logic.{inl, inr}
use mathlib.Core.Bool.{false}
use mathlib.Core.Option.{Option, none, some}
use mathlib.Core.List.{List, [], ◌∷◌, ◌++◌}
use native.Mathlib.Omega.{arith}
use autotargeting.Base.Tests.{if◌then◌else◌, ltb, Bool-cases}
use autotargeting.Base.Lists.{length, length-append, All}
use autotargeting.Base.Maps.{and_then, map_option}

module _ {ℓ} {A : Type ℓ} where
  abbrev pub take : ℕ → List A → List A
  take zero xs = []
  take (suc n) [] = []
  take (suc n) (x ∷ xs) = x ∷ take n xs

  abbrev pub drop : ℕ → List A → List A
  drop zero xs = xs
  drop (suc n) [] = []
  drop (suc n) (x ∷ xs) = drop n xs

  -- `&xs[a..][..n]`; none where it panics.
  unfoldable pub slice : List A → ℕ → ℕ → Option (List A)
  slice xs a n = if ltb (length xs) (a + n) then none else some (take n (drop a xs))

  -- `xs.chunks_exact(n)` for an `n` that is not 0, on fuel: each chunk takes one of it.
  unfoldable pub chunks_from : ℕ → ℕ → List A → List (List A)
  chunks_from zero n xs = []
  chunks_from (suc fuel) n xs =
      let rest = chunks_from fuel n (drop n xs) in
      if ltb (length xs) n then [] else take n xs ∷ rest

  unfoldable pub chunks_exact : ℕ → List A → List (List A)
  chunks_exact n xs = chunks_from (length xs) n xs

  -- `xs.chunks_exact(n).remainder()`.
  abbrev pub remainder : ℕ → List A → List A
  remainder n xs = drop (length xs / n * n) xs

  pub length-take : (n : ℕ) (xs : List A) → n ≤ length xs → length (take n xs) ≡ n
  length-take zero xs h = refl
  length-take (suc n) [] h = absurd (omega arith)
  length-take (suc n) (x ∷ xs) h = ap suc (length-take n xs (omega arith))

  pub length-drop : (n : ℕ) (xs : List A) → length (drop n xs) ≡ length xs - n
  length-drop zero xs = omega arith
  length-drop (suc n) [] = omega arith
  length-drop (suc n) (x ∷ xs) = omega (arith, length-drop n xs)

  pub take-append : (xs ys : List A) → take (length xs) (xs ++ ys) ≡ xs
  take-append [] ys = refl
  take-append (x ∷ xs) ys = ap (λ (l : List A). x ∷ l) (take-append xs ys)

  pub drop-append : (xs ys : List A) → drop (length xs) (xs ++ ys) ≡ ys
  drop-append [] ys = refl
  drop-append (x ∷ xs) ys = drop-append xs ys

module _ {ℓ} {B : Type ℓ} where
  length-parts :
      (n : ℕ) (d r out : List B)
      → ltb (length out) n ≡ false
      → length d ≡ n
      → length r ≡ length (drop n out)
      → length (d ++ r) ≡ length out
  length-parts n d r out h hd hr = ground (arith, length-append d r, length-drop n out)

-- Rows of `k` before the row `j`.
pub mul-below : (i j k : ℕ) → i < j → i * k + k ≤ j * k
mul-below i j k h = omega (arith, suc-mul i k, mul-le-mul h (le_refl k))

-- `range_from i k` is `i..i + k`.
abbrev pub range_from : ℕ → ℕ → List ℕ
range_from i zero = []
range_from i (suc k) = i ∷ range_from (suc i) k

module _ {ℓ κ} {A : Type ℓ} {B : Type κ} where
  -- `for (s, d) in sources.zip(out.chunks_exact_mut(n)) { … }`, whose body turns `d` into `f s d`.
  unfoldable pub zip_mut : ℕ → (A → List B → List B) → List A → List B → List B
  zip_mut n f [] out = out
  zip_mut n f (s ∷ ss) out =
      let rest = zip_mut n f ss (drop n out) in
      if ltb (length out) n then out else f s (take n out) ++ rest

  -- The same with a body that may panic.
  unfoldable pub try_zip_mut :
      ℕ → (A → List B → Option (List B)) → List A → List B → Option (List B)
  try_zip_mut n f [] out = some out
  try_zip_mut n f (s ∷ ss) out =
      let rest = try_zip_mut n f ss (drop n out) in
      if ltb (length out) n
      then some out
      else and_then (f s (take n out)) (λ d. map_option (λ r. d ++ r) rest)

  pub length-zip_mut :
      (n : ℕ) (f : A → List B → List B)
      → ((s : A) (d : List B) → length d ≡ n → length (f s d) ≡ n)
      → (ss : List A) (out : List B) → length (zip_mut n f ss out) ≡ length out
  unfolding zip_mut
  length-zip_mut n f h [] out = refl
  length-zip_mut n f h (s ∷ ss) out = elim (Bool-cases (ltb (length out) n)) [
    | inl e ↦ ground arith
    | inr e ↦ rw e (
        length-parts n (f s (take n out)) (zip_mut n f ss (drop n out)) out e
          (h s (take n out) (length-take n out (ground arith)))
          (length-zip_mut n f h ss (drop n out)))
  ]

  -- A loop whose body never panics on the chunks it is given ends, and keeps the length.
  pub try_zip_mut_fills :
      (P : A → Type 0) (n : ℕ) (f : A → List B → Option (List B))
      → ((s : A) (d : List B)
          → P s
          → length d ≡ n
          → (r : List B) × (f s d ≡ some r) × (length r ≡ n))
      → (ss : List A) (out : List B) → All P ss
      → (r : List B) × (try_zip_mut n f ss out ≡ some r) × (length r ≡ length out)
  unfolding try_zip_mut
  try_zip_mut_fills P n f h [] out all = (out, refl, refl)
  try_zip_mut_fills P n f h (s ∷ ss) out all = elim (Bool-cases (ltb (length out) n)) [
    | inl e ↦ (out, rw e refl, refl)
    | inr e ↦
        let here = h s (take n out) all.0 (length-take n out (ground arith)) in
        let there = try_zip_mut_fills P n f h ss (drop n out) all.1 in
        (
          here.0 ++ there.0,
          ground (arith, here.1, there.1),
          length-parts n here.0 there.0 out e here.2 there.2,
        )
  ]

pub All-range_from : (n i k : ℕ) → i + k ≤ n → All (λ (j : ℕ). j < n) (range_from i k)
All-range_from n i zero h = tt
All-range_from n i (suc k) h = (omega arith, All-range_from n (suc i) k (omega arith))

module _ {ℓ} {A : Type ℓ} where
  pub length-slice :
      (xs : List A) (a n : ℕ)
      → a + n ≤ length xs
      → (r : List A) × (slice xs a n ≡ some r) × (length r ≡ n)
  unfolding slice
  length-slice xs a n h = (
    take n (drop a xs),
    ground arith,
    length-take n (drop a xs) (omega (arith, length-drop a xs)),
  )

  below_len : (n : ℕ) (xs : List A) → ltb (length xs) n ≡ false → n ≤ length xs
  below_len n xs e = ground arith

  -- The chunks fit into the slice.
  chunks_from-le : (fuel n : ℕ) (xs : List A) → length (chunks_from fuel n xs) * n ≤ length xs
  unfolding chunks_from
  chunks_from-le zero n xs = omega arith
  chunks_from-le (suc fuel) n xs = elim (Bool-cases (ltb (length xs) n)) [
    | inl e ↦ rw e (omega arith)
    | inr e ↦ rw e (
        omega (
          arith,
          chunks_from-le fuel n (drop n xs),
          length-drop n xs,
          suc-mul (length (chunks_from fuel n (drop n xs))) n,
          below_len n xs e,
        ))
  ]

  pub map-slice_fills :
      (g : List A → List A) (xs : List A) (a n k : ℕ)
      → ((row : List A) → length (g row) ≡ k)
      → a + n ≤ length xs
      → (r : List A) × (map_option g (slice xs a n) ≡ some r) × (length r ≡ k)
  map-slice_fills g xs a n k h fits =
      let row = length-slice xs a n fits in (g row.0, ground (arith, row.1), h row.0)

  pub chunks_exact_le : (n : ℕ) (xs : List A) → length (chunks_exact n xs) * n ≤ length xs
  unfolding chunks_exact
  chunks_exact_le n xs = chunks_from-le (length xs) n xs
