-- ===== src/Dsl/Placeholder.antt =====
-- The regular expression `\$\{args\.([A-Za-z_][A-Za-z0-9_]*)\}`, which tag.py and builder.py apply to a
-- text with `sub`: the text is cut from the left into matches and single characters.
pub mod Split
use Prim.Native.Char.{Char, code}
use Prim.Native.String.{[], ◌∷◌, ◌++◌}
use hse_graduate_qualificati.Base.{
  ℕ, zero, suc, ◌+◌, ◌-◌, String, Bool, true, false, ◌&&◌, ◌||◌, Option, none, some, leb, nat_eq,
  if◌then◌else◌,
}

unfoldable pub is_ident_start : Char → Bool
is_ident_start c =
    (leb 65 (code c) && leb (code c) 90)
    || (leb 97 (code c) && leb (code c) 122)
    || nat_eq (code c) 95

unfoldable pub is_ident_char : Char → Bool
unfolding is_ident_start
is_ident_char c = is_ident_start c || (leb 48 (code c) && leb (code c) 57)

-- The text after the literal part of the pattern, or none if it does not begin so.
unfoldable pub strip_prefix : String → String → Option String
strip_prefix [] s = some s
strip_prefix (p ∷ ps) [] = none
strip_prefix (p ∷ ps) (c ∷ s) =
    let rest = strip_prefix ps s in if nat_eq (code p) (code c) then rest else none

-- `[A-Za-z0-9_]*`, greedy, then `}`: what the group has gathered, and how much has been read.
unfoldable pub name_from : String → ℕ → String → Option (String × ℕ)
unfolding is_ident_char
name_from name n [] = none
name_from name n (c ∷ s) =
    let rest = name_from (name ++ (c ∷ [])) (n + 1) s in
    if is_ident_char c then rest else if nat_eq (code c) 125 then some (name, n + 1) else none

unfoldable pub name_start : String → Option (String × ℕ)
unfolding name_from
name_start [] = none
name_start (c ∷ s) = if is_ident_start c then name_from (c ∷ []) 1 s else none

-- A match at the beginning of the text: the group, and the length of the match.
unfoldable pub match_arg : String → Option (String × ℕ)
unfolding strip_prefix name_start
match_arg s = elim (strip_prefix "${args." s) [
  | none ↦ none
  | some rest ↦ elim (name_start rest) [ none ↦ none | some (name, n) ↦ some (name, 7 + n) ]
]
