-- ===== src/Assignment/Tests.antt =====
-- The assignment at work.
use autotargeting.Base.{ℕ, ◌≡◌, ◌⊎◌, refl, Option, none, some, List, [], ◌∷◌, false}
use autotargeting.Floats.Milli.{Milli, num, not_a_number, milli_float, Milli-IsIeee}
use autotargeting.Assignment.{solve}
use autotargeting.Assignment.Outcome.{IsMatching, IsUnending, solve-IsMatching, solve_ends}

abbrev at : ℕ → Milli
at n = num false n

abbrev keep : Milli → Milli
keep x = x

abbrev two_by_two : List (List Milli)
two_by_two = (at 900 ∷ at 100 ∷ []) ∷ (at 200 ∷ at 150 ∷ []) ∷ []

crossed : solve keep two_by_two ≡ some (some 1 ∷ some 0 ∷ [])
unfolding solve
crossed = refl

tall : solve keep ((at 900 ∷ []) ∷ (at 200 ∷ []) ∷ []) ≡ some (none ∷ some 0 ∷ [])
unfolding solve
tall = refl

-- With a price that is not a number no fuel is enough.
unpriced : solve keep ((not_a_number ∷ []) ∷ []) ≡ none
unfolding solve
unpriced = refl

solve-IsMatching_example : IsMatching 2 2 (some 1 ∷ some 0 ∷ [])
solve-IsMatching_example =
    solve-IsMatching Milli-IsIeee keep two_by_two (some 1 ∷ some 0 ∷ []) crossed

solve_ends_example :
    ((r : List (Option ℕ)) × (solve keep two_by_two ≡ some r))
    ⊎ IsUnending Milli-IsIeee keep two_by_two
unfolding solve
solve_ends_example = solve_ends Milli-IsIeee keep two_by_two refl
