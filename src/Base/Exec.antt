-- ===== src/Base/Exec.antt =====
-- Code that may raise an exception, and code that also changes a state. What was written before
-- an exception stays written, so the state comes back beside the exception too.
pub mod Keeps
use mathlib.Core.Path.{◌≡◌, refl}
use mathlib.Core.Logic.{◌⊎◌, inl, inr}

-- What the source tells apart by `except` clauses, or meets in its own expressions.
pub data Exception : Type 0 where
  attribute_error type_error key_error index_error : Exception
  request_failed http_error decode_error : Exception
  broken_pipe timeout_error not_found docker_error : Exception

pub data Result {ℓ} (A : Type ℓ) : Type ℓ where
  ok : A → Result A
  err : Exception → Result A

abbrev pub Exec {ℓ κ} : Type ℓ → Type κ → Type (ℓ ⊔ κ)
Exec S A = S → Result A × S

module _ {ℓ κ} {S : Type ℓ} {A : Type κ} where
  abbrev pub pure : A → Exec S A
  pure a s = (ok a, s)

  abbrev pub raise : Exception → Exec S A
  raise e s = (err e, s)

  abbrev pub lift : Result A → Exec S A
  lift r s = (r, s)

  abbrev pub handle : Result A × S → (Exception → Exec S A) → Result A × S
  handle (ok a, s) h = (ok a, s)
  handle (err e, s) h = h e s

  -- `try: m except Exception as e: h(e)`
  abbrev pub try_except : Exec S A → (Exception → Exec S A) → Exec S A
  try_except m h s = handle (m s) h

module _ {ℓ κ} {S : Type ℓ} {A B : Type κ} where
  abbrev pub continue : Result A × S → (A → Exec S B) → Result B × S
  continue (ok a, s) f = f a s
  continue (err e, s) f = (err e, s)

  infixl 5 ◌>>=◌ ◌>>◌
  abbrev pub ◌>>=◌ : Exec S A → (A → Exec S B) → Exec S B
  ◌>>=◌ m f s = continue (m s) f

  abbrev pub ◌>>◌ : Exec S A → Exec S B → Exec S B
  m >> n = m >>= λ _. n

-- A run, with the equation that says how it ended.
pub Exec-cases {ℓ κ} :
    {S : Type ℓ} {A : Type κ} (r : Result A × S)
    → ((a : A) × (s : S) × (r ≡ (ok a, s))) ⊎ ((e : Exception) × (s : S) × (r ≡ (err e, s)))
Exec-cases (ok a, s) = inl (a, s, refl)
Exec-cases (err e, s) = inr (e, s, refl)

-- A block that succeeds: its first step does, and so does the rest from there.
pub bind-eq-ok {ℓ κ} :
    {S : Type ℓ} {A B : Type κ} (r : Result A × S) (f : A → Exec S B) {b : B} {s' : S}
    → continue r f ≡ (ok b, s')
    → (a : A) × (s : S) × (r ≡ (ok a, s)) × (f a s ≡ (ok b, s'))
bind-eq-ok (ok a, s) f h = (a, s, refl, h)
bind-eq-ok (err e, s) f h = cc
