-- ===== src/Base/Result.antt =====
-- `do` blocks for pure code that may raise.
use mathlib.Core.Path.{◌≡◌, refl}
use mathlib.Core.Logic.{◌⊎◌, inl, inr}
use noumena_mcp_gateway_poc.Base.Exec.{Exception, Result, ok, err}

module _ {ℓ} {A : Type ℓ} where
  -- A result, with the equation that says which it is.
  pub Result-cases : (r : Result A) → ((a : A) × (r ≡ ok a)) ⊎ ((e : Exception) × (r ≡ err e))
  Result-cases (ok a) = inl (a, refl)
  Result-cases (err e) = inr (e, refl)

  pub ok-injective : {a b : A} → ◌≡◌ {A = Result A} (ok a) (ok b) → a ≡ b
  ok-injective h = cc

module _ {ℓ κ} {A : Type ℓ} {B : Type κ} where
  infixl 5 ◌>>=◌
  abbrev pub ◌>>=◌ : Result A → (A → Result B) → Result B
  ok value >>= rest = rest value
  err raised >>= rest = err raised

  -- A block that succeeds: its first step does, and so does the rest.
  pub >>=-eq-ok :
      (first : Result A) (rest : A → Result B) {result : B}
      → (first >>= rest) ≡ ok result
      → (value : A) × (first ≡ ok value) × (rest value ≡ ok result)
  >>=-eq-ok (err raised) rest h = cc
  >>=-eq-ok (ok value) rest h = (value, refl, h)
