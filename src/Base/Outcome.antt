-- ===== src/Base/Outcome.antt =====
-- Calls of libraries inside a `try` statement.
use mathlib.Core.Path.{◌≡◌, refl}
use hse_graduate_qualificati.Base.Exec.{Error, Result, ok, raise}

-- What a call of a library does: it returns, it raises the exception that its caller expects, with
-- what the caller reads of it, or it raises another one.
pub data Outcome {ℓ κ} (E : Type ℓ) (A : Type κ) : Type (ℓ ⊔ κ) where
  returned : A → Outcome E A
  expected : E → Outcome E A
  other : Error → Outcome E A

-- `try: … except E as exc: raise …`
unfoldable pub convert {ℓ κ} : {E : Type ℓ} {A : Type κ} → (E → Error) → Outcome E A → Result A
convert handler (returned a) = ok a
convert handler (expected e) = raise (handler e)
convert handler (other e) = raise e

-- `try: a = … except E: return …`, and what follows
unfoldable pub catch {ℓ κ ι} :
    {E : Type ℓ} {A : Type κ} {B : Type ι} → Outcome E A → B → (A → Result B) → Result B
catch (returned a) on_error next = next a
catch (expected e) on_error next = ok on_error
catch (other e) on_error next = raise e

-- An expression inside the statement, and one that uses its value.
infixl 10 ◌>>=ₒ◌
abbrev pub ◌>>=ₒ◌ {ℓ κ ι} :
    {E : Type ℓ} {A : Type κ} {B : Type ι} → Outcome E A → (A → Outcome E B) → Outcome E B
returned a >>=ₒ next = next a
expected e >>=ₒ next = expected e
other e >>=ₒ next = other e

pub >>=ₒ-eq-returned {ℓ κ ι} :
    {E : Type ℓ} {A : Type κ} {B : Type ι} (first : Outcome E A) (next : A → Outcome E B) (b : B)
    → (first >>=ₒ next) ≡ returned b
    → (a : A) × (first ≡ returned a) × (next a ≡ returned b)
>>=ₒ-eq-returned (returned a) next b h = (a, refl, h)
>>=ₒ-eq-returned (expected e) next b h = cc h
>>=ₒ-eq-returned (other e) next b h = cc h
