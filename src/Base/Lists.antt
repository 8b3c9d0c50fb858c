-- ===== src/Base/Lists.antt =====
-- Lists over native lengths, sets of texts as lists, and predicates on lists by recursion.
use Prim.Native.Nat.{ℕ, suc, ◌+◌}
use Prim.Native.String.{String}
use mathlib.Core.Path.{◌≡◌, refl}
use mathlib.Core.Bool.{Bool, false, not, ◌&&◌, ◌||◌}
use mathlib.Core.List.{List, [], ◌∷◌, ◌++◌}
use native.Mathlib.Omega.{arith}
use text.Mathlib.Text.{◌==◌}
use text.Mathlib.TextEquality.{eq_iff}
use text.Mathlib.TextPositions.{eq_refl}
use mathlib.Core.Logic.{inl, inr}
use hse_graduate_qualificati.Base.Tests.{if◌then◌else◌, text_cases}

module _ {ℓ} {A : Type ℓ} where
  abbrev pub length : List A → ℕ
  length [] = 0
  length (x ∷ xs) = suc (length xs)

  pub length-append : (xs ys : List A) → length (xs ++ ys) ≡ length xs + length ys
  length-append [] ys = omega arith
  length-append (x ∷ xs) ys = omega (arith, length-append xs ys)

-- Every element has the property, as nested pairs.
abbrev pub All {ℓ κ} : {A : Type ℓ} → (A → Type κ) → List A → Type κ
All P [] = Unit
All P (x ∷ xs) = P x × All P xs

-- `x in l`, for texts.
unfoldable pub contains : String → List String → Bool
contains k [] = false
contains k (x ∷ xs) = x == k || contains k xs

-- `s.add(x)`: a Python set is a list in which no text stands twice; its order is not read.
unfoldable pub set_add : String → List String → List String
unfolding contains
set_add k s = if contains k s then s else k ∷ s

-- `s.difference_update(keys)`.
unfoldable pub difference_update : List String → List String → List String
unfolding contains
difference_update [] ks = []
difference_update (x ∷ xs) ks =
    let rest = difference_update xs ks in if contains x ks then rest else x ∷ rest

pub contains-set_add :
    (j k : String) (s : List String) → contains j (set_add k s) ≡ (k == j || contains j s)
unfolding set_add
contains-set_add j k s = elim (text_cases k j) [
  | inl same ↦ rw (same, eq_refl j) (ground (arith, eq_refl j))
  | inr differs ↦ ground arith
]

pub contains-difference_update :
    (j : String) (s ks : List String)
    → contains j (difference_update s ks) ≡ (contains j s && not (contains j ks))
unfolding contains difference_update
contains-difference_update j [] ks = refl
contains-difference_update j (x ∷ s) ks =
    ground (arith, eq_iff x j, contains-difference_update j s ks)
