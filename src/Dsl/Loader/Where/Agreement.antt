-- ===== src/Dsl/Loader/Where/Agreement.antt =====
-- framework/dsl/loader.py and framework/sql/builder.py agree on the placeholders of a where text.
use Prim.Native.Char.{Char, code}
use text.Mathlib.TextEquality.{Char-path}
use Prim.Native.String.{◌++◌, count}
use hse_graduate_qualificati.Base
use hse_graduate_qualificati.Base.{
  ℕ, String, ◌≡◌, refl, sym, ap, ◌∙◌, Bool, true, false, ◌&&◌, Option, none, some, List, [], ◌∷◌,
  contains, All, nat_eq, length, ◌==◌, if◌then◌else◌, arith, Bool-cases, Option-cases, inl, inr,
  eq_iff,
}
use hse_graduate_qualificati.Base.Dict.{Dict, lookup}
use hse_graduate_qualificati.Base.Exec.{ok}
use hse_graduate_qualificati.Base.Unicode.{Unicode}
use hse_graduate_qualificati.Dsl.Loader.Tokens.{tokenize}
use hse_graduate_qualificati.Dsl.Loader.Where.{
  Where, operators, punctuation, all_chars, some_chars, arg_name, is_string, is_numeric, number_end,
  digits_end, is_decimal, rewrite_where,
}
use hse_graduate_qualificati.Dsl.Loader.Where.Allowed.{
  Allowed, AllowedText, spaces, symbol, word, numeral, literal, column, argument, nothing, part,
  rewrite_where-AllowedText,
}
use hse_graduate_qualificati.Dsl.Placeholder.{match_arg}
use hse_graduate_qualificati.Dsl.Placeholder.Split.{split, placeholders, pieces}
use hse_graduate_qualificati.Dsl.Placeholder.Split.Parts.{
  has_no_dollar, placeholders-no_dollar, placeholders-whole,
}

-- What is relied on of the database: a `$` is no space, no letter and no digit.
pub record DollarLaws (u : Unicode) : Type 0 where
  pub space : u.is_space "$" ≡ false
  pub alpha : u.is_alpha "$" ≡ false
  pub decimal : u.decimal "$" ≡ none

-- The columns of the map have no `$` in their names.
abbrev pub ColumnsHaveNoDollar : Dict String → Type 0
ColumnsHaveNoDollar columns =
    (field c : String) → lookup field columns ≡ some c → has_no_dollar c ≡ true

no_dollar_by :
    (test : Char → Bool) (c : Char) → test "$" ≡ false → test c ≡ true → nat_eq (code c) 36 ≡ false
no_dollar_by test c out h = elim (Bool-cases (nat_eq (code c) 36)) [
  | inr differs ↦ differs
  | inl same ↦
      let is_dollar : c ≡ "$" = Char-path c "$" (ground arith) in cc (out, h, ap test is_dollar)
]

no_dollar_and :
    (c : Char) (t : String)
    → nat_eq (code c) 36 ≡ false
    → has_no_dollar t ≡ true
    → has_no_dollar (String.◌∷◌ c t) ≡ true
unfolding has_no_dollar
no_dollar_and c t differs h = rw (differs, h)

both : (a b : Bool) → (a && b) ≡ true → (a ≡ true) × (b ≡ true)
both true b h = (refl, h)
both false b h = cc

all_chars-no_dollar :
    (test : Char → Bool) (t : String)
    → test "$" ≡ false
    → all_chars test t ≡ true
    → has_no_dollar t ≡ true
unfolding all_chars has_no_dollar
all_chars-no_dollar test String.[] out h = refl
all_chars-no_dollar test (String.◌∷◌ c t) out h =
    let (first, rest) = both (test c) (all_chars test t) h in
    no_dollar_and c t (no_dollar_by test c out first) (all_chars-no_dollar test t out rest)

some_chars-no_dollar :
    (test : Char → Bool) (t : String)
    → test "$" ≡ false
    → some_chars test t ≡ true
    → has_no_dollar t ≡ true
unfolding some_chars
some_chars-no_dollar test String.[] out h = cc h
some_chars-no_dollar test (String.◌∷◌ c t) out h = all_chars-no_dollar test (String.◌∷◌ c t) out h

contains-no_dollar :
    (t : String) (l : List String)
    → All (λ x. has_no_dollar x ≡ true) l
    → contains t l ≡ true
    → has_no_dollar t ≡ true
unfolding contains
contains-no_dollar t [] all h = cc h
contains-no_dollar t (x ∷ l) all h = elim (Bool-cases (x == t)) [
  | inl same ↦ let e : x ≡ t = (eq_iff x t).0 same in rw (← e) all.0
  | inr differs ↦ contains-no_dollar t l all.1 (rw differs at h)
]

module _ (u : Unicode) (L : DollarLaws u) where
  decimal_out : is_decimal u "$" ≡ false
  decimal_out = rw (L.decimal, is_decimal)

  digits_end-no_dollar :
      (seen : Bool) (t : String) → digits_end u seen t ≡ true → has_no_dollar t ≡ true
  unfolding digits_end has_no_dollar
  digits_end-no_dollar seen String.[] h = refl
  digits_end-no_dollar seen (String.◌∷◌ c t) h =
      let (first, rest) = both (is_decimal u c) (digits_end u true t) h in
      no_dollar_and c t (no_dollar_by (is_decimal u) c decimal_out first)
        (digits_end-no_dollar true t rest)

  number_end-no_dollar :
      (seen : Bool) (t : String) → number_end u seen t ≡ true → has_no_dollar t ≡ true
  unfolding number_end has_no_dollar
  number_end-no_dollar seen String.[] h = refl
  number_end-no_dollar seen (String.◌∷◌ c t) h = elim (Bool-cases (is_decimal u c)) [
    | inl digit ↦
        no_dollar_and c t (no_dollar_by (is_decimal u) c decimal_out digit)
          (number_end-no_dollar true t (rw digit at h))
    | inr other ↦
        let tail : (seen && nat_eq (code c) 46 && digits_end u false t) ≡ true = rw other at h in
        let (front, rest) = both (seen && nat_eq (code c) 46) (digits_end u false t) tail in
        let (started, dot) = both seen (nat_eq (code c) 46) front in
        no_dollar_and c t (ground arith) (digits_end-no_dollar false t rest)
  ]

  is_numeric-no_dollar : (t : String) → is_numeric u t ≡ true → has_no_dollar t ≡ true
  unfolding is_numeric
  is_numeric-no_dollar String.[] h = cc h
  is_numeric-no_dollar (String.◌∷◌ c t) h = elim (Bool-cases (nat_eq (code c) 45)) [
    | inl minus ↦ no_dollar_and c t (ground arith) (number_end-no_dollar false t (rw minus at h))
    | inr other ↦ number_end-no_dollar false (String.◌∷◌ c t) (rw other at h)
  ]

  arg_name-whole : (t name : String) → arg_name t ≡ some name → match_arg t ≡ some (name, count t)
  unfolding arg_name
  arg_name-whole t name h = elim (Option-cases (match_arg t)) [
    | inl other ↦ cc (rw (other, arg_name) at h)
    | inr ((found, n), matched) ↦ elim (Bool-cases (nat_eq n (count t))) [
      | inr shorter ↦ cc (rw (matched, shorter, arg_name) at h)
      | inl whole ↦
          let same : some found ≡ some name = rw (matched, whole, arg_name) at h in
          let size : n ≡ count t = ground arith in
          matched ∙ ap (λ k. some (found, k)) size ∙ ap (λ f. some (f, count t)) (cc same)
    ]
  ]

  module _ (columns : Dict String) (clean : ColumnsHaveNoDollar columns) where
    abbrev Clean : String → Type 0
    Clean t = has_no_dollar t ≡ true

    Allowed-placeholders :
        (t s : String) (ns : List String)
        → Allowed u columns Clean t ns
        → placeholders (split (t ++ s)) ≡ Base.◌++◌ ns (placeholders (split s))
    unfolding has_no_dollar
    Allowed-placeholders t s _ (spaces h) =
        placeholders-no_dollar t s (some_chars-no_dollar u.is_space t L.space h)
    Allowed-placeholders t s _ (symbol h) = placeholders-no_dollar t s (
        contains-no_dollar t (Base.◌++◌ operators punctuation)
          (refl, (refl, (refl, (refl, (refl, (refl, (refl, (refl, (refl, tt))))))))) h)
    Allowed-placeholders t s _ (word h alpha) =
        placeholders-no_dollar t s (some_chars-no_dollar u.is_alpha t L.alpha alpha)
    Allowed-placeholders t s _ (numeral h) = placeholders-no_dollar t s (is_numeric-no_dollar t h)
    Allowed-placeholders t s _ (literal h lit) = placeholders-no_dollar t s lit
    Allowed-placeholders t s _ (column field h) = placeholders-no_dollar t s (clean field t h)
    Allowed-placeholders t s _ (argument {name = name} h) =
        placeholders-whole t s name (arg_name-whole t name h)

    AllowedText-placeholders :
        (text : String) (names : List String)
        → AllowedText u columns Clean text names
        → placeholders (split text) ≡ names
    unfolding split placeholders pieces
    AllowedText-placeholders text names nothing = refl
    AllowedText-placeholders text names (part t s ns ms one rest is_text is_names) =
        ap (λ x. placeholders (split x)) is_text
        ∙ Allowed-placeholders t s ns one
        ∙ ap (λ l. Base.◌++◌ ns l) (AllowedText-placeholders s ms rest)
        ∙ sym is_names

    -- Where no column's name and no string literal of the text has a `$`: the names that the loader
    -- records as `where_args` are those of the placeholders that the SQL builder finds in the
    -- rewritten text, in the same order.
    pub rewrite_where-placeholders :
        (where_text path : String) (r : Where)
        → All (λ t. is_string t ≡ true → has_no_dollar t ≡ true) (tokenize u where_text)
        → rewrite_where u (some where_text) columns path ≡ ok r
        → (sql : String) × (r.where_sql ≡ some sql) × (placeholders (split sql) ≡ r.where_args)
    rewrite_where-placeholders where_text path r lits h =
        let (sql, is_sql, text) =
          rewrite_where-AllowedText u columns path Clean where_text r lits h in
        (sql, is_sql, AllowedText-placeholders sql r.where_args text)
