-- ===== src/Prelude/Results.antt =====
-- The Go pair `(value, error)`: a value or an error, and the chain of fallible steps.
use mathlib.Core.Path.{◌≡◌, refl}
use mathlib.Core.Logic.{◌⊎◌, inl, inr}

pub data Result {ℓ} (E A : Type ℓ) : Type ℓ where
  ok : A → Result E A
  err : E → Result E A

module _ {ℓ} {E A B : Type ℓ} where
  infixl 5 ◌>>=◌
  -- An error ends the chain.
  abbrev pub ◌>>=◌ : Result E A → (A → Result E B) → Result E B
  err e >>= next = err e
  ok x >>= next = next x

  -- A chain that succeeds has succeeded in its first step.
  pub bind-eq-ok :
      (first : Result E A) (next : A → Result E B) {y : B}
      → first >>= next ≡ ok y
      → (x : A) × (first ≡ ok x) × (next x ≡ ok y)
  bind-eq-ok (err _) next h = cc
  bind-eq-ok (ok x) next h = (x, refl, h)

-- Only the error is replaced: `fmt.Errorf` around an inner error.
abbrev pub map_err {ℓ} : {E F A : Type ℓ} → (E → F) → Result E A → Result F A
map_err f (ok a) = ok a
map_err f (err e) = err (f e)

pub Result-cases {ℓ} :
    {E A : Type ℓ} (r : Result E A) → ((a : A) × (r ≡ ok a)) ⊎ ((e : E) × (r ≡ err e))
Result-cases (ok a) = inl (a, refl)
Result-cases (err e) = inr (e, refl)
