-- ===== src/Dsl/Placeholder/Split/Steps.antt =====
-- One step of the scan for placeholders, and the scan of a text in two parts.
use Prim.Native.Char.{Char}
use Prim.Native.String.{count}
use text.Mathlib.TextLemmas.{length-cons}
use hse_graduate_qualificati.Base.{ℕ, ◌-◌, String, ◌≡◌, refl, none, some, [], ◌∷◌}
use hse_graduate_qualificati.Dsl.Placeholder.{match_arg}
use hse_graduate_qualificati.Dsl.Placeholder.Split.{literal, placeholder, split, pieces}

pub split-match :
    (c : Char) (s name : String) (n : ℕ)
    → match_arg (String.◌∷◌ c s) ≡ some (name, n)
    → split (String.◌∷◌ c s) ≡ placeholder name ∷ pieces (n - 1) s
unfolding split pieces
split-match c s name n h = rw (h, pieces)

pub split-no_match :
    (c : Char) (s : String)
    → match_arg (String.◌∷◌ c s) ≡ none
    → split (String.◌∷◌ c s) ≡ literal c ∷ split s
unfolding split pieces
split-no_match c s h = rw (h, pieces)

-- Nothing is left behind all characters.
pub pieces_all : (s : String) → pieces (count s) s ≡ []
unfolding pieces
pieces_all String.[] = refl
pieces_all (String.◌∷◌ c s) = rw (length-cons c s) (pieces_all s)
