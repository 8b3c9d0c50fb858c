-- ===== src/Dsl/Loader/Tokens.antt =====
-- framework/dsl/loader.py: `_TOKEN_RE.split`, without the empty texts between its matches.
use Prim.Native.Char.{code}
use Prim.Native.String.{[], ◌∷◌, ◌++◌}
use hse_graduate_qualificati.Base
use hse_graduate_qualificati.Base.{
  ℕ, zero, suc, ◌+◌, String, Bool, true, false, ◌||◌, ◌&&◌, Option, none, some, List, nat_eq,
  if◌then◌else◌,
}
use hse_graduate_qualificati.Base.Unicode.{Unicode}
use hse_graduate_qualificati.Dsl.Placeholder.{strip_prefix}

-- How many characters there are up to and with the first `}`.
unfoldable pub to_brace : String → Option ℕ
to_brace [] = none
to_brace (c ∷ s) =
    if nat_eq (code c) 125
    then some 1
    else elim (to_brace s) [ none ↦ none | some n ↦ some (suc n) ]

-- `\$\{[^}]+\}` at the beginning: the length of the match, or 0. The group is not empty.
unfoldable pub match_braces : String → ℕ
unfolding strip_prefix to_brace
match_braces s = elim (strip_prefix "${" s) [
  | none ↦ 0
  | some rest ↦ elim (to_brace rest) [
    | none ↦ 0
    | some zero ↦ 0
    | some (suc zero) ↦ 0
    | some (suc (suc n)) ↦ 4 + n
  ]
]

-- the length of the run of white space at the beginning
unfoldable pub match_spaces : Unicode → String → ℕ
match_spaces u [] = 0
match_spaces u (c ∷ s) = let rest = match_spaces u s in if u.is_space c then suc rest else 0

-- `<=|>=|!=|=|<|>|\(|\)|,`
unfoldable pub match_symbol : String → ℕ
match_symbol [] = 0
match_symbol (c ∷ []) =
    if nat_eq (code c) 61
      || nat_eq (code c) 60
      || nat_eq (code c) 62
      || nat_eq (code c) 40
      || nat_eq (code c) 41
      || nat_eq (code c) 44
    then 1
    else 0
match_symbol (c ∷ d ∷ s) =
    if (nat_eq (code c) 60 || nat_eq (code c) 62 || nat_eq (code c) 33) && nat_eq (code d) 61
    then 2
    else if nat_eq (code c) 61
        || nat_eq (code c) 60
        || nat_eq (code c) 62
        || nat_eq (code c) 40
        || nat_eq (code c) 41
        || nat_eq (code c) 44
    then 1
    else 0

-- The length of the match at the beginning, the alternatives in their order; 0 if there is none.
unfoldable pub match_token : Unicode → String → ℕ
unfolding match_braces match_spaces match_symbol
match_token u s = elim (match_braces s) [
  | suc n ↦ suc n
  | zero ↦ elim (match_spaces u s) [ suc n ↦ suc n | zero ↦ match_symbol s ]
]

-- `if t != ""`
unfoldable pub flush : String → List String → List String
flush [] tokens = tokens
flush (c ∷ s) tokens = Base.◌∷◌ (c ∷ s) tokens

-- The walk over the text: `gap` is what stands since the last match, or, while `left` characters of
-- a match are to come, what the match has gathered.
unfoldable pub scan : Unicode → String → ℕ → String → List String
unfolding match_token flush
scan u gap left [] = flush gap Base.[]
scan u gap (suc left) (c ∷ s) = elim left [
  | zero ↦ Base.◌∷◌ (gap ++ (c ∷ [])) (scan u "" 0 s)
  | suc more ↦ scan u (gap ++ (c ∷ [])) (suc more) s
]
scan u gap zero (c ∷ s) = elim (match_token u (c ∷ s)) [
  | zero ↦ scan u (gap ++ (c ∷ [])) 0 s
  | suc zero ↦ flush gap (Base.◌∷◌ (c ∷ []) (scan u "" 0 s))
  | suc (suc more) ↦ flush gap (scan u (c ∷ []) (suc more) s)
]

unfoldable pub tokenize : Unicode → String → List String
unfolding scan
tokenize u where_text = scan u "" 0 where_text
