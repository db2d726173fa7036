-- ===== src/AntiLoop/Pacing.antt =====
-- Triggers that are a second apart: of those within five seconds there are at most five.
use autotargeting.Base.{
  ℕ, ◌+◌, ◌-◌, ◌*◌, ◌≤◌, ◌<◌, Bool, List, [], ◌∷◌, ◌++◌, arith, All, retain, length, ltb,
  length-append,
}
use autotargeting.AntiLoop.{second}

-- Each trigger comes at least a second after the ones before it.
abbrev pub IsPaced : List ℕ → Type 0
IsPaced [] = Unit {0}
IsPaced (t ∷ ts) = All (λ u. t + second ≤ u) ts × IsPaced ts

pub All-retain {ℓ} :
    {A : Type ℓ} (P : A → Type 0) (p : A → Bool) (xs : List A) → All P xs → All P (retain p xs)
All-retain P p [] h = tt
All-retain P p (x ∷ xs) h = ground (arith, All-retain P p xs h.1)

pub All-le :
    (a b : ℕ) (xs : List ℕ) → a ≤ b → All (λ t. t + second ≤ a) xs → All (λ t. t + second ≤ b) xs
All-le a b [] h all = tt
All-le a b (x ∷ xs) h all = (omega arith, All-le a b xs h all.1)

pub All-snoc {ℓ} :
    {A : Type ℓ} (P : A → Type 0) (xs : List A) (a : A) → All P xs → P a → All P (xs ++ (a ∷ []))
All-snoc P [] a h p = (p, tt)
All-snoc P (x ∷ xs) a h p = (h.0, All-snoc P xs a h.1 p)

pub retain-IsPaced : (p : ℕ → Bool) (ts : List ℕ) → IsPaced ts → IsPaced (retain p ts)
retain-IsPaced p [] h = tt
retain-IsPaced p (t ∷ ts) h =
    ground (arith, All-retain (λ u. t + second ≤ u) p ts h.0, retain-IsPaced p ts h.1)

pub snoc-IsPaced :
    (ts : List ℕ) (u : ℕ) → IsPaced ts → All (λ t. t + second ≤ u) ts → IsPaced (ts ++ (u ∷ []))
snoc-IsPaced [] u h all = (tt, tt)
snoc-IsPaced (t ∷ ts) u h all =
    (All-snoc (λ v. t + second ≤ v) ts u h.0 all.0, snoc-IsPaced ts u h.1 all.1)

-- A paced list that ends with `u` spans a second for each step.
length-IsPaced :
    (ts : List ℕ) (t u : ℕ) → IsPaced (t ∷ ts ++ (u ∷ [])) → t + second * (length ts + 1) ≤ u
length-IsPaced [] t u h = omega arith
length-IsPaced (v ∷ ts) t u h = omega (arith, length-IsPaced ts v u h.1)

-- The triggers of the last five seconds.
abbrev pub recent : ℕ → List ℕ → List ℕ
recent later ts = retain (λ t. ltb (later - t) (5 * second)) ts

pub All-recent : (later : ℕ) (ts : List ℕ) → All (λ t. later - t < 5 * second) (recent later ts)
All-recent later [] = tt
All-recent later (t ∷ ts) = ground (arith, All-recent later ts)

-- A paced list within five seconds that ends now has at most five triggers.
pub length-paced_recent :
    (later : ℕ) (ts : List ℕ)
    → All (λ t. later - t < 5 * second) ts
    → IsPaced (ts ++ (later ∷ []))
    → length (ts ++ (later ∷ [])) ≤ 5
length-paced_recent later [] all paced = omega arith
length-paced_recent later (t ∷ ts) all paced =
    omega (arith, all.0, length-IsPaced ts t later paced, length-append ts (later ∷ []))
