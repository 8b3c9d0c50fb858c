-- ===== src/Base/Exec.antt =====
-- Python code that raises, and methods that change an object and may raise. What was written
-- before a raise stays written, so the state comes back beside the error too.
use Prim.Native.Nat.{ℕ}
use Prim.Native.String.{String}
use mathlib.Core.Logic.{◌⊎◌, inl, inr}
use mathlib.Core.Path.{◌≡◌, refl}
use mathlib.Core.List.{List, [], ◌∷◌}
use hse_graduate_qualificati.Dsl.Errors.{DslErrorCode}

-- The exceptions of the modelled code; an exception of a library carries its text.
pub data Error : Type 0 where
  value_error key_error runtime_error assertion_error library_error : String → Error
  multiplicity_violation : String → ℕ → Error
  dsl_error : DslErrorCode → String → String → Error

pub data Result {ℓ} (V : Type ℓ) : Type ℓ where
  ok : V → Result V
  raise : Error → Result V

pub Result-cases {ℓ} :
    {V : Type ℓ} (r : Result V) → ((v : V) × (r ≡ ok v)) ⊎ ((e : Error) × (r ≡ raise e))
Result-cases (raise e) = inr (e, refl)
Result-cases (ok v) = inl (v, refl)

pub ok_inj {ℓ} : {V : Type ℓ} (v w : V) → ok v ≡ ok w → v ≡ w
ok_inj v w same = cc

-- A statement, and what follows when it has not raised.
infixl 10 ◌>>=◌ ◌>>◌
abbrev pub ◌>>=◌ {ℓ κ} : {V : Type ℓ} {W : Type κ} → Result V → (V → Result W) → Result W
raise e >>= next = raise e
ok v >>= next = next v

module _ {ℓ κ} {V : Type ℓ} {W : Type κ} where
  -- A chain that comes back has come back at each step.
  pub >>=-eq-ok :
      (first : Result V) (next : V → Result W) {w : W}
      → (first >>= next) ≡ ok w
      → (v : V) × (first ≡ ok v) × (next v ≡ ok w)
  >>=-eq-ok (raise e) next fine = cc
  >>=-eq-ok (ok v) next fine = (v, refl, fine)

  -- A chain comes back when its first step does, and what follows does on what that returned.
  pub >>=-total :
      (first : Result V) (next : V → Result W) (v : V)
      → first ≡ ok v
      → (w : W) × (next v ≡ ok w)
      → (w : W) × ((first >>= next) ≡ ok w)
  >>=-total (raise e) next v h later = cc
  >>=-total (ok v') next v h (w, later) = let e : v' ≡ v = cc in (w, rw e later)

  -- A list comprehension whose element expression may raise.
  unfoldable pub traverse : (V → Result W) → List V → Result (List W)
  traverse f [] = ok []
  traverse f (v ∷ vs) = do w ← f v; ws ← traverse f vs; ok (w ∷ ws)

abbrev pub ◌>>◌ {ℓ} : {W : Type ℓ} → Result (Unit {0}) → Result W → Result W
first >> second = first >>= λ u. second

-- A method: from the object's state to a result and the new state.
abbrev pub Exec {ℓ} : Type ℓ → Type ℓ → Type ℓ
Exec S A = S → Result A × S

module _ {ℓ} {S A B : Type ℓ} where
  -- What a method does after another one has come back.
  abbrev pub after : Result A × S → (A → Exec S B) → Result B × S
  after (ok a, s) f = f a s
  after (raise e, s) f = (raise e, s)

  pub after-ok : (r : Result A × S) (f : A → Exec S B) {a : A} → r.0 ≡ ok a → after r f ≡ f a r.1
  after-ok (ok x, s) f {a} h = let e : x ≡ a = cc in rw e
  after-ok (raise e, s) f h = cc
