-- ===== src/Dsl/Loader/Where.antt =====
-- framework/dsl/loader.py: `_classify`, `_looks_like_ident`, `_rewrite_where` and `_rewrite_set`.
pub mod Allowed
pub mod Agreement
use Prim.Native.Char.{Char, code}
use Prim.Native.String
use Prim.Native.String.{◌++◌, count}
use hse_graduate_qualificati.Base
use hse_graduate_qualificati.Base.{
  ℕ, suc, ◌+◌, String, Bool, true, false, not, ◌&&◌, ◌||◌, Option, none, some, List, [], ◌∷◌,
  nat_eq, ◌==◌, contains, if◌then◌else◌,
}
use hse_graduate_qualificati.Base.Dict.{Dict, lookup, insert}
use hse_graduate_qualificati.Base.Exec.{Result, ok, raise, dsl_error, ◌>>=◌}
use hse_graduate_qualificati.Base.Sorted.{sort_items}
use hse_graduate_qualificati.Base.Unicode.{Unicode}
use hse_graduate_qualificati.Dsl.Errors.{yaml_schema}
use hse_graduate_qualificati.Dsl.Loader.Tokens.{tokenize}
use hse_graduate_qualificati.Dsl.Placeholder.{match_arg, is_ident_start, is_ident_char}

abbrev pub keywords : List String
keywords = "AND" ∷ "OR" ∷ "NOT" ∷ "IN" ∷ "IS" ∷ "NULL" ∷ []

abbrev pub operators : List String
operators = "=" ∷ "!=" ∷ "<" ∷ "<=" ∷ ">" ∷ ">=" ∷ []

abbrev pub punctuation : List String
punctuation = "(" ∷ ")" ∷ "," ∷ []

-- Every character passes the test.
unfoldable pub all_chars : (Char → Bool) → String → Bool
all_chars test String.[] = true
all_chars test (String.◌∷◌ c s) = test c && all_chars test s

-- `token.isspace()` and `token.isalpha()`, which are false of the empty text
unfoldable pub some_chars : (Char → Bool) → String → Bool
unfolding all_chars
some_chars test String.[] = false
some_chars test (String.◌∷◌ c s) = all_chars test (String.◌∷◌ c s)

-- `_ARG_RE`, anchored at both ends, and its group
unfoldable pub arg_name : String → Option String
arg_name token = elim (match_arg token) [
  | none ↦ none
  | some (name, n) ↦ if nat_eq n (count token) then some name else none
]

-- `_IDENT_RE`. No token that is matched holds a line break, so `$` is the end of the text, here and
-- in the next two.
unfoldable pub is_ident : String → Bool
unfolding all_chars
is_ident String.[] = false
is_ident (String.◌∷◌ c s) = is_ident_start c && all_chars is_ident_char s

-- `^'[^']*'$`, behind the first quote
unfoldable pub closes : String → Bool
closes String.[] = false
closes (String.◌∷◌ c String.[]) = nat_eq (code c) 39
closes (String.◌∷◌ c (String.◌∷◌ d s)) = not (nat_eq (code c) 39) && closes (String.◌∷◌ d s)

unfoldable pub is_string : String → Bool
unfolding closes
is_string String.[] = false
is_string (String.◌∷◌ c s) = nat_eq (code c) 39 && closes s

abbrev pub is_decimal : Unicode → Char → Bool
is_decimal u c = elim (u.decimal c) [ none ↦ false | some d ↦ true ]

-- `\d+(\.\d+)?` to the end, and `\d+` to the end; `seen` tells that a digit has been read.
unfoldable pub digits_end : Unicode → Bool → String → Bool
digits_end u seen String.[] = seen
digits_end u seen (String.◌∷◌ c s) = is_decimal u c && digits_end u true s

unfoldable pub number_end : Unicode → Bool → String → Bool
unfolding digits_end
number_end u seen String.[] = seen
number_end u seen (String.◌∷◌ c s) =
    let rest = number_end u true s in
    if is_decimal u c then rest else seen && nat_eq (code c) 46 && digits_end u false s

-- `_NUMERIC_RE`
unfoldable pub is_numeric : Unicode → String → Bool
unfolding number_end
is_numeric u String.[] = false
is_numeric u (String.◌∷◌ c s) =
    if nat_eq (code c) 45 then number_end u false s else number_end u false (String.◌∷◌ c s)

pub data Kind : Type 0 where
  arg : String → Kind
  operator punct keyword numeric string identifier unsupported : Kind

-- `_classify`; an argument carries the group of the match, which `_rewrite_where` takes by matching
-- again, so that its error for an argument that does not match cannot be raised.
unfoldable pub classify : Unicode → String → Kind
unfolding arg_name some_chars is_numeric is_string is_ident
classify u token = elim (arg_name token) [
  | some name ↦ arg name
  | none ↦
      if contains token operators
      then operator
      else if contains token punctuation
      then punct
      else if contains (u.upper token) keywords && some_chars u.is_alpha token
      then keyword
      else if is_numeric u token
      then numeric
      else if is_string token
      then string
      else if is_ident token
      then identifier
      else unsupported
]

unfoldable pub looks_like_ident : Unicode → String → Bool
unfolding is_ident
looks_like_ident u token = is_ident token && not (contains (u.upper token) keywords)

-- What a token adds to `output` and to `args`.
pub record Emitted : Type 0 where
  pub text : String
  pub names : List String

abbrev pub plain : String → Emitted
plain text = record { text = text; names = [] }

-- the guard of the branch for operators and punctuation: a name before `(`
unfoldable pub is_call : Unicode → Option String → String → Bool
unfolding looks_like_ident
is_call u none token = false
is_call u (some prev) token = token == "(" && looks_like_ident u prev

-- `{prev_meaningful}` in a text
abbrev pub shown : Option String → String
shown none = "None"
shown (some text) = text

unfoldable pub emit_symbol : Unicode → String → Option String → String → Result Emitted
unfolding is_call
emit_symbol u path prev token =
    if is_call u prev token
    then raise (
        dsl_error yaml_schema path (
          "function call '"
          ++ (shown prev ++ "(...)' not allowed in where; dsl-spec section 6 allowlist only")))
    else ok (plain token)

-- the branches on `kind`
unfoldable pub emit :
    Unicode → Dict String → String → Option String → String → Kind → Result Emitted
unfolding emit_symbol
emit u columns path prev token (arg name) = ok (record { text = token; names = name ∷ [] })
emit u columns path prev token operator = emit_symbol u path prev token
emit u columns path prev token punct = emit_symbol u path prev token
emit u columns path prev token keyword = ok (plain token)
emit u columns path prev token numeric = ok (plain token)
emit u columns path prev token string = ok (plain token)
emit u columns path prev token identifier = elim (lookup token columns) [
  | none ↦ raise (
      dsl_error yaml_schema path (
        "unknown identifier '"
        ++ (token ++ "' in where; not in columns map and not a permitted keyword")))
  | some column ↦ ok (plain column)
]
emit u columns path prev token unsupported = raise (
    dsl_error yaml_schema path (
      "unsupported operator/syntax '"
      ++ (token ++ "' in where; dsl-spec section 6 allowlist only")))

abbrev pub append_emitted : Emitted → Emitted → Emitted
append_emitted e rest = record { text = e.text ++ rest.text; names = Base.◌++◌ e.names rest.names }

-- the loop over the tokens; `prev` is `prev_meaningful`
unfoldable pub rewrite_tokens :
    Unicode → Dict String → String → Option String → List String → Result Emitted
unfolding emit classify some_chars
rewrite_tokens u columns path prev [] = ok (plain "")
rewrite_tokens u columns path prev (token ∷ tokens) = elim (some_chars u.is_space token) [
  | true ↦
      rewrite_tokens u columns path prev tokens >>= λ rest. ok (append_emitted (plain token) rest)
  | false ↦ emit u columns path prev token (classify u token) >>= λ e.
      rewrite_tokens u columns path (some token) tokens >>= λ rest. ok (append_emitted e rest)
]

-- What `_rewrite_where` returns.
pub record Where : Type 0 where
  pub where_sql : Option String
  pub where_args : List String

unfoldable pub rewrite_where : Unicode → Option String → Dict String → String → Result Where
unfolding rewrite_tokens tokenize
rewrite_where u none columns path = ok (record { where_sql = none; where_args = [] })
rewrite_where u (some where_text) columns path = do
  e ← rewrite_tokens u columns path none (tokenize u where_text)
  ok (record { where_sql = some e.text; where_args = e.names })

-- the loop of `_rewrite_set`, over the sorted items
unfoldable pub rewrite_items :
    Dict String → String → Dict String → Dict String → Result (Dict String)
rewrite_items columns path rewritten [] = ok rewritten
rewrite_items columns path rewritten ((field, value) ∷ items) = elim (lookup field columns) [
  | none ↦ raise (
      dsl_error yaml_schema (path ++ ("." ++ field))
        ("unknown field '" ++ (field ++ "' (not in columns map)")))
  | some column ↦ rewrite_items columns path (insert column value rewritten) items
]

unfoldable pub rewrite_set :
    Option (Dict String) → Dict String → String → Result (Option (Dict String))
unfolding rewrite_items
rewrite_set none columns path = ok none
rewrite_set (some spec_set) columns path =
    rewrite_items columns path [] (sort_items spec_set) >>= λ rewritten. ok (some rewritten)
