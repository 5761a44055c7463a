-- ===== src/Base/Exec/Keeps.antt =====
-- Actions that keep a part of the state, by the way in which they are built.
use noumena_mcp_gateway_poc.Base.{ap, ◌≡◌, refl, ◌∙◌, Bool, true, false, if◌then◌else◌}
use noumena_mcp_gateway_poc.Base.Exec.{
  Exec, Exception, Result, ok, err, pure, raise, lift, continue, handle, try_except, ◌>>=◌,
}

-- `m` keeps the part `part` of the state.
pub record Keeps {ℓ κ ι} {S : Type ℓ} {X : Type κ} {A : Type ι} (part : S → X) (m : Exec S A)
    : Type (ℓ ⊔ κ) where
  pub at : (s : S) → part (m s).1 ≡ part s

-- The same for a test between two runs.
pub part-if {ℓ κ ι} :
    {S : Type ℓ} {X : Type κ} {A : Type ι} (part : S → X) (b : Bool) (r r' : Result A × S) {x : X}
    → part r.1 ≡ x
    → part r'.1 ≡ x
    → part (if b then r else r').1 ≡ x
part-if part true r r' e e' = e
part-if part false r r' e e' = e'

module _ {ℓ κ ι} {S : Type ℓ} {X : Type κ} {A : Type ι} {part : S → X} where
  pub Keeps-pure : (a : A) → Keeps part (pure a)
  Keeps-pure a = record { at = λ s. refl }

  pub Keeps-raise : (e : Exception) → Keeps part (raise {A = A} e)
  Keeps-raise e = record { at = λ s. refl }

  pub Keeps-lift : (r : Result A) → Keeps part (lift r)
  Keeps-lift r = record { at = λ s. refl }

  pub Keeps-if :
      (b : Bool) (m n : Exec S A) → Keeps part m → Keeps part n → Keeps part (if b then m else n)
  Keeps-if true m n km kn = km
  Keeps-if false m n km kn = kn

  part-handle :
      (r : Result A × S) (h : Exception → Exec S A)
      → ((e : Exception) → Keeps part (h e))
      → part (handle r h).1 ≡ part r.1
  part-handle (ok a, s) h kh = refl
  part-handle (err e, s) h kh = (kh e).at s

  pub Keeps-try :
      (m : Exec S A) (h : Exception → Exec S A)
      → Keeps part m
      → ((e : Exception) → Keeps part (h e))
      → Keeps part (try_except m h)
  Keeps-try m h km kh = record { at = λ s. part-handle (m s) h kh ∙ km.at s }

module _ {ℓ κ ι} {S : Type ℓ} {X : Type κ} {A B : Type ι} {part : S → X} where
  part-continue :
      (r : Result A × S) (f : A → Exec S B)
      → ((a : A) → Keeps part (f a))
      → part (continue r f).1 ≡ part r.1
  part-continue (ok a, s) f kf = (kf a).at s
  part-continue (err e, s) f kf = refl

  pub Keeps-bind :
      (m : Exec S A) (f : A → Exec S B)
      → Keeps part m
      → ((a : A) → Keeps part (f a))
      → Keeps part (m >>= f)
  Keeps-bind m f km kf = record { at = λ s. part-continue (m s) f kf ∙ km.at s }

pub ruleset keeps_rules = (Keeps-pure, Keeps-raise, Keeps-lift, Keeps-if, Keeps-bind, Keeps-try)

-- `m` never returns.
pub record Raises {ℓ κ} {S : Type ℓ} {A : Type κ} (m : Exec S A) : Type (ℓ ⊔ κ) where
  pub at : (s : S) → (e : Exception) × ((m s).0 ≡ err e)

module _ {ℓ κ} {S : Type ℓ} {A B : Type κ} where
  continue-err :
      (r : Result A × S) (f : A → Exec S B) {e : Exception}
      → r.0 ≡ err e
      → continue r f ≡ (err e, r.1)
  continue-err (ok a, s) f h = cc
  continue-err (err e, s) f h = cc

  pub Raises-bind : (m : Exec S A) (f : A → Exec S B) → Raises m → Raises (m >>= f)
  Raises-bind m f rm = record {
    at = λ s. let (e, p) = rm.at s in (e, ap (λ r. r.0) (continue-err (m s) f p));
  }

  continue-Raises :
      (r : Result A × S) (f : A → Exec S B)
      → ((a : A) → Raises (f a))
      → (e : Exception) × ((continue r f).0 ≡ err e)
  continue-Raises (ok a, s) f rf = (rf a).at s
  continue-Raises (err e, s) f rf = (e, refl)

  pub Raises-bind_rest :
      (m : Exec S A) (f : A → Exec S B) → ((a : A) → Raises (f a)) → Raises (m >>= f)
  Raises-bind_rest m f rf = record { at = λ s. continue-Raises (m s) f rf }

  -- What follows an action that never returns is not run.
  pub Keeps-bind-Raises {ι} :
      {X : Type ι} {part : S → X} (m : Exec S A) (f : A → Exec S B)
      → Keeps part m
      → Raises m
      → Keeps part (m >>= f)
  Keeps-bind-Raises {part} m f km rm = record {
    at = λ s. let (e, p) = rm.at s in ap (λ r. part r.1) (continue-err (m s) f p) ∙ km.at s;
  }
