-- ===== src/Base/Maps.antt =====
-- `HashMap` as an association list. The order of its entries stands for the order of iteration,
-- which the library leaves open.
use mathlib.Core.Path.{◌≡◌, refl}
use mathlib.Core.Logic.{◌↔◌}
use mathlib.Core.Bool.{Bool, true}
use mathlib.Core.Option.{Option, none, some}
use mathlib.Core.List.{List, [], ◌∷◌}
use Prim.Native.Nat.{ℕ, ◌+◌, ◌≤◌}
use native.Mathlib.Omega.{arith}
use autotargeting.Base.Tests.{if◌then◌else◌, ◌==◌, ==_iff}
use autotargeting.Base.Lists.{length}

-- A type of keys with its `Eq`.
pub record Key {ℓ} (K : Type ℓ) : Type ℓ where
  pub beq : K → K → Bool
  pub beq_iff : (a b : K) → (beq a b ≡ true) ↔ (a ≡ b)

instance abbrev pub nat_key : Key ℕ
nat_key = record { beq = ◌==◌; beq_iff = ==_iff }

abbrev pub Map {ℓ κ} : Type ℓ → Type κ → Type (ℓ ⊔ κ)
Map K V = List (K × V)

abbrev pub and_then {ℓ κ} : {A : Type ℓ} {B : Type κ} → Option A → (A → Option B) → Option B
and_then none f = none
and_then (some a) f = f a

abbrev pub map_option {ℓ κ} : {A : Type ℓ} {B : Type κ} → (A → B) → Option A → Option B
map_option f none = none
map_option f (some a) = some (f a)

module _ {ℓ κ} {K : Type ℓ} {V : Type κ} ⦃e : Key K⦄ where
  unfoldable pub lookup : K → Map K V → Option V
  lookup k [] = none
  lookup k ((j, v) ∷ m) = if e.beq j k then some v else lookup k m

  -- `insert`: an entry with the key is replaced.
  unfoldable pub insert : K → V → Map K V → Map K V
  insert k v [] = (k, v) ∷ []
  insert k v ((j, w) ∷ m) = if e.beq j k then (k, v) ∷ m else (j, w) ∷ insert k v m

  -- A write through `get_mut`; nothing happens at a missing key.
  unfoldable pub modify : K → (V → V) → Map K V → Map K V
  modify k f [] = []
  modify k f ((j, w) ∷ m) = if e.beq j k then (j, f w) ∷ m else (j, w) ∷ modify k f m

  unfoldable pub remove : K → Map K V → Map K V
  remove k [] = []
  remove k ((j, w) ∷ m) = if e.beq j k then m else (j, w) ∷ remove k m

  -- No key stands twice.
  abbrev pub IsDistinct : Map K V → Type κ
  IsDistinct [] = Unit
  IsDistinct ((k, v) ∷ m) = (lookup k m ≡ none) × IsDistinct m

  pub lookup-insert :
      (k j : K) (v : V) (m : Map K V)
      → lookup j (insert k v m) ≡ (if e.beq k j then some v else lookup j m)
  unfolding lookup insert
  lookup-insert k j v [] = refl
  lookup-insert k j v ((i, w) ∷ m) =
      ground (arith, e.beq_iff k j, e.beq_iff i k, e.beq_iff i j, lookup-insert k j v m)

  pub lookup-modify :
      (k j : K) (f : V → V) (m : Map K V)
      → lookup j (modify k f m) ≡ (if e.beq k j then map_option f (lookup j m) else lookup j m)
  unfolding lookup modify
  lookup-modify k j f [] = ground arith
  lookup-modify k j f ((i, w) ∷ m) =
      ground (arith, e.beq_iff k j, e.beq_iff i k, e.beq_iff i j, lookup-modify k j f m)

  pub insert-IsDistinct : (k : K) (v : V) (m : Map K V) → IsDistinct m → IsDistinct (insert k v m)
  unfolding lookup insert
  insert-IsDistinct k v [] h = (refl, tt)
  insert-IsDistinct k v ((i, w) ∷ m) h =
      ground
        (arith, e.beq_iff i k, e.beq_iff k i, insert-IsDistinct k v m h.1, lookup-insert k i v m)

  pub modify-IsDistinct :
      (k : K) (f : V → V) (m : Map K V) → IsDistinct m → IsDistinct (modify k f m)
  unfolding lookup modify
  modify-IsDistinct k f [] h = tt
  modify-IsDistinct k f ((i, w) ∷ m) h =
      ground (arith, e.beq_iff i k, modify-IsDistinct k f m h.1, lookup-modify k i f m)

  pub remove-absent : (k j : K) (m : Map K V) → lookup j m ≡ none → lookup j (remove k m) ≡ none
  unfolding lookup remove
  remove-absent k j [] h = refl
  remove-absent k j ((i, w) ∷ m) h = ground (arith, remove-absent k j m)

  pub remove-IsDistinct : (k : K) (m : Map K V) → IsDistinct m → IsDistinct (remove k m)
  unfolding lookup remove
  remove-IsDistinct k [] h = tt
  remove-IsDistinct k ((i, w) ∷ m) h =
      ground (arith, remove-IsDistinct k m h.1, remove-absent k i m h.0)

  pub length-remove-le : (k : K) (m : Map K V) → length (remove k m) ≤ length m
  unfolding remove
  length-remove-le k [] = ground arith
  length-remove-le k ((i, w) ∷ m) = ground (arith, length-remove-le k m)

  pub length-modify : (k : K) (f : V → V) (m : Map K V) → length (modify k f m) ≡ length m
  unfolding modify
  length-modify k f [] = refl
  length-modify k f ((i, w) ∷ m) = ground (arith, length-modify k f m)

  pub length-insert-le : (k : K) (v : V) (m : Map K V) → length (insert k v m) ≤ length m + 1
  unfolding insert
  length-insert-le k v [] = ground arith
  length-insert-le k v ((i, w) ∷ m) = ground (arith, length-insert-le k v m)

module _ {ℓ κ μ} {K : Type ℓ} {V : Type κ} {W : Type μ} ⦃e : Key K⦄ where
  -- The entries that `f` keeps, with what it makes of them: a loop that pushes, or `retain`.
  unfoldable pub select : (V → Option W) → Map K V → Map K W
  select f [] = []
  select f ((k, v) ∷ m) =
      let rest = select f m in elim (f v) [ none ↦ rest | some w ↦ (k, w) ∷ rest ]

  -- The entries with `f` applied to their values.
  unfoldable pub map_values : (V → W) → Map K V → Map K W
  map_values f [] = []
  map_values f ((k, v) ∷ m) = (k, f v) ∷ map_values f m

  pub lookup-map_values :
      (k : K) (f : V → W) (m : Map K V) → lookup k (map_values f m) ≡ map_option f (lookup k m)
  unfolding lookup map_values
  lookup-map_values k f [] = refl
  lookup-map_values k f ((j, v) ∷ m) = ground (arith, lookup-map_values k f m)

  pub length-map_values : (f : V → W) (m : Map K V) → length (map_values f m) ≡ length m
  unfolding map_values
  length-map_values f [] = refl
  length-map_values f ((k, v) ∷ m) = ground (arith, length-map_values f m)

  select-absent :
      (k : K) (f : V → Option W) (m : Map K V) → lookup k m ≡ none → lookup k (select f m) ≡ none
  unfolding lookup select
  select-absent k f [] h = refl
  select-absent k f ((j, v) ∷ m) h = ground (arith, select-absent k f m)

  pub lookup-select :
      (k : K) (f : V → Option W) (m : Map K V)
      → IsDistinct m
      → lookup k (select f m) ≡ and_then (lookup k m) f
  unfolding lookup select
  lookup-select k f [] h = refl
  lookup-select k f ((j, v) ∷ m) h =
      ground (arith, e.beq_iff j k, select-absent j f m h.0, lookup-select k f m h.1)

  pub select-IsDistinct : (f : V → Option W) (m : Map K V) → IsDistinct m → IsDistinct (select f m)
  unfolding select
  select-IsDistinct f [] h = tt
  select-IsDistinct f ((k, v) ∷ m) h =
      ground (arith, select-absent k f m h.0, select-IsDistinct f m h.1)

  pub length-select-le : (f : V → Option W) (m : Map K V) → length (select f m) ≤ length m
  unfolding select
  length-select-le f [] = ground arith
  length-select-le f ((k, v) ∷ m) = ground (arith, length-select-le f m)
