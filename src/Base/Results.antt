-- ===== src/Base/Results.antt =====
-- `Result<T, E>` of Rust, with its `?` as a bind.
pub data Result {ℓ} (E A : Type ℓ) : Type ℓ where
  ok : A → Result E A
  err : E → Result E A

-- A method on `&mut self` that returns a result: the object is kept on both outcomes.
abbrev pub Fallible : Type 0 → Type 0 → Type 0 → Type 0
Fallible S E A = S × Result E A

infixl 5 ◌>>=◌
abbrev pub ◌>>=◌ {ℓ} : {E A B : Type ℓ} → Result E A → (A → Result E B) → Result E B
ok a >>= f = f a
err e >>= f = err e
