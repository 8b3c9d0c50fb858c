-- ===== src/Base/Tests.antt =====
-- Boolean tests on the native numbers, the conditional, and splits on computed values.
use Prim.Native.Nat.{ℕ, compare, Ordering}
use Prim.Native.String.{String}
use text.Mathlib.Text.{◌==◌ as str_eq}
use text.Mathlib.TextEquality.{eq_iff}
use mathlib.Core.Path.{◌≡◌, refl}
use mathlib.Core.Logic.{◌⊎◌, inl, inr, ◌≢◌}
use mathlib.Core.Bool.{Bool, true, false}
use mathlib.Core.Option.{Option, none, some}
use native.Mathlib.Omega.{arith}

abbrev pub ltb : ℕ → ℕ → Bool
ltb a b = elim (compare a b) [ Ordering.lt ↦ true | _ ↦ false ]

abbrev pub leb : ℕ → ℕ → Bool
leb a b = elim (compare a b) [ Ordering.gt ↦ false | _ ↦ true ]

-- Equality of numbers as a test; `==` is the texts'.
abbrev pub nat_eq : ℕ → ℕ → Bool
nat_eq a b = elim (compare a b) [ Ordering.eq ↦ true | _ ↦ false ]

infix 1 if◌then◌else◌
abbrev pub if◌then◌else◌ {ℓ} : {A : Type ℓ} → Bool → A → A → A
if true then x else y = x
if false then x else y = y

pub Bool-cases : (b : Bool) → (b ≡ true) ⊎ (b ≡ false)
Bool-cases true = inl refl
Bool-cases false = inr refl

pub Option-cases {ℓ} : {A : Type ℓ} (o : Option A) → (o ≡ none) ⊎ ((a : A) × (o ≡ some a))
Option-cases none = inl refl
Option-cases (some a) = inr (a, refl)

-- Two texts are equal or told apart by the test.
pub text_cases : (s t : String) → (s ≡ t) ⊎ (str_eq s t ≡ false)
text_cases s t = elim (Bool-cases (str_eq s t)) [
  | inl same ↦ inl ((eq_iff s t).0 same)
  | inr differs ↦ inr differs
]

pub ne_of_differs : (s t : String) → str_eq s t ≡ false → s ≢ t
ne_of_differs s t h = ground (arith, eq_iff s t)

pub differs_of_ne : (s t : String) → s ≢ t → str_eq s t ≡ false
differs_of_ne s t h = ground (arith, eq_iff s t)

-- The two branches of a test for one key, where the result is known.
pub hit_inv {ℓ} :
    {A : Type ℓ} (k j : String) (a b : A) (o : Option A)
    → k ≡ j
    → (if str_eq k j then some a else o) ≡ some b
    → a ≡ b
hit_inv k j a b o same h = ground (arith, eq_iff k j)

pub miss_inv {ℓ} :
    {A : Type ℓ} (k j : String) (a b : A) (o : Option A)
    → str_eq k j ≡ false
    → (if str_eq k j then some a else o) ≡ some b
    → o ≡ some b
miss_inv k j a b o differs h = rw differs at h
