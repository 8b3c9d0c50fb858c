-- ===== src/Dsl/Loader/Where/Allowed.antt =====
-- `_rewrite_where` of framework/dsl/loader.py as an allowlist: what a rewritten text is made of.
use Prim.Native.String.{◌++◌}
use mathlib.Core.Path.{subst}
use hse_graduate_qualificati.Base
use hse_graduate_qualificati.Base.{
  ℕ, String, ◌≡◌, refl, sym, ap, ◌∙◌, Bool, true, false, ◌&&◌, Option, none, some, List, [], ◌∷◌,
  contains, All, ◌==◌, if◌then◌else◌, arith, Bool-cases, Option-cases, inl, inr,
}
use hse_graduate_qualificati.Base.Dict.{Dict, lookup}
use hse_graduate_qualificati.Base.Exec.{ok, ◌>>=◌, ok_inj, >>=-eq-ok}
use hse_graduate_qualificati.Base.Unicode.{Unicode}
use hse_graduate_qualificati.Dsl.Loader.Tokens.{tokenize}
use hse_graduate_qualificati.Dsl.Loader.Where.{
  Kind, arg, operator, punct, keyword, numeric, string, identifier, unsupported, Emitted, Where,
  keywords, operators, punctuation, some_chars, arg_name, is_string, is_numeric, is_ident, classify,
  is_call, emit_symbol, emit, rewrite_tokens, append_emitted, plain, rewrite_where,
}

-- A part of a rewritten text, and the arguments that it names. `Literal` is what is known of the
-- string literals.
pub data Allowed (u : Unicode) (columns : Dict String) (Literal : String → Type 0)
    : String → List String → Type 0 where
  spaces : {t : String} → some_chars u.is_space t ≡ true → Allowed u columns Literal t []
  symbol :
      {t : String}
      → contains t (Base.◌++◌ operators punctuation) ≡ true
      → Allowed u columns Literal t []
  word :
      {t : String}
      → contains (u.upper t) keywords ≡ true
      → some_chars u.is_alpha t ≡ true
      → Allowed u columns Literal t []
  numeral : {t : String} → is_numeric u t ≡ true → Allowed u columns Literal t []
  literal : {t : String} → is_string t ≡ true → Literal t → Allowed u columns Literal t []
  column :
      {t : String} (field : String) → lookup field columns ≡ some t → Allowed u columns Literal t []
  argument :
      {t : String} {name : String}
      → arg_name t ≡ some name
      → Allowed u columns Literal t (name ∷ [])

-- A text of such parts, with the arguments that they name, in order.
pub data AllowedText (u : Unicode) (columns : Dict String) (Literal : String → Type 0)
    : String → List String → Type 0 where
  nothing : AllowedText u columns Literal "" []
  part :
      {text : String} {names : List String} (t s : String) (ns ms : List String)
      → Allowed u columns Literal t ns
      → AllowedText u columns Literal s ms
      → text ≡ t ++ s
      → names ≡ Base.◌++◌ ns ms
      → AllowedText u columns Literal text names

-- What `_classify` says is so.
abbrev IsOfKind : Unicode → String → Kind → Type 0
IsOfKind u t (arg name) = arg_name t ≡ some name
IsOfKind u t operator = contains t operators ≡ true
IsOfKind u t punct = contains t punctuation ≡ true
IsOfKind u t keyword = (contains (u.upper t) keywords ≡ true) × (some_chars u.is_alpha t ≡ true)
IsOfKind u t numeric = is_numeric u t ≡ true
IsOfKind u t string = is_string t ≡ true
IsOfKind u t identifier = is_ident t ≡ true
IsOfKind u t unsupported = Unit

both : (a b : Bool) → (a && b) ≡ true → (a ≡ true) × (b ≡ true)
both true b h = (refl, h)
both false b h = cc

classify_others :
    (u : Unicode) (t : String) (is_op is_punct is_word is_num is_str is_id : Bool)
    → (is_op ≡ true → contains t operators ≡ true)
    → (is_punct ≡ true → contains t punctuation ≡ true)
    → (is_word ≡ true → (contains (u.upper t) keywords && some_chars u.is_alpha t) ≡ true)
    → (is_num ≡ true → is_numeric u t ≡ true)
    → (is_str ≡ true → is_string t ≡ true)
    → (is_id ≡ true → is_ident t ≡ true)
    → IsOfKind u t (
        if is_op
        then operator
        else if is_punct
        then punct
        else if is_word
        then keyword
        else if is_num
        then numeric
        else if is_str
        then string
        else if is_id
        then identifier
        else unsupported)
classify_others u t true b c d e f o p w n s i = o refl
classify_others u t false true c d e f o p w n s i = p refl
classify_others u t false false true d e f o p w n s i = both _ _ (w refl)
classify_others u t false false false true e f o p w n s i = n refl
classify_others u t false false false false true f o p w n s i = s refl
classify_others u t false false false false false true o p w n s i = i refl
classify_others u t false false false false false false o p w n s i = tt

classify-IsOfKind : (u : Unicode) (t : String) → IsOfKind u t (classify u t)
unfolding classify
classify-IsOfKind u t = elim (Option-cases (arg_name t)) [
  | inr (name, found) ↦ rw (found, classify) found
  | inl other ↦
      rw (other, classify)
        (classify_others u t _ _ _ _ _ _ (λ h. h) (λ h. h) (λ h. h) (λ h. h) (λ h. h) (λ h. h))
]

contains-left :
    (t : String) (xs ys : List String) → contains t xs ≡ true → contains t (Base.◌++◌ xs ys) ≡ true
unfolding contains
contains-left t [] ys h = cc h
contains-left t (x ∷ xs) ys h = elim (Bool-cases (x == t)) [
  | inl same ↦ rw same
  | inr differs ↦ rw differs (contains-left t xs ys (rw differs at h))
]

contains-right_part :
    (t : String) (xs ys : List String) → contains t ys ≡ true → contains t (Base.◌++◌ xs ys) ≡ true
unfolding contains
contains-right_part t [] ys h = h
contains-right_part t (x ∷ xs) ys h = elim (Bool-cases (x == t)) [
  | inl same ↦ rw same
  | inr differs ↦ rw differs (contains-right_part t xs ys h)
]

module _ (u : Unicode) (columns : Dict String) (path : String) (Literal : String → Type 0) where
  symbol-Allowed :
      (prev : Option String) (t : String) (e : Emitted)
      → contains t (Base.◌++◌ operators punctuation) ≡ true
      → emit_symbol u path prev t ≡ ok e
      → Allowed u columns Literal e.text e.names
  unfolding emit_symbol
  symbol-Allowed prev t e inside h = elim (Bool-cases (is_call u prev t)) [
    | inl call ↦ cc (rw (call, emit_symbol) at h)
    | inr fine ↦ let same = ok_inj _ e (rw (fine, emit_symbol) at h) in rw (← same) (symbol inside)
  ]

  emit-Allowed :
      (prev : Option String) (t : String) (k : Kind) (e : Emitted)
      → IsOfKind u t k
      → (is_string t ≡ true → Literal t)
      → emit u columns path prev t k ≡ ok e
      → Allowed u columns Literal e.text e.names
  unfolding emit
  emit-Allowed prev t (arg name) e is lit h = let same = ok_inj _ e h in rw (← same) (argument is)
  emit-Allowed prev t operator e is lit h =
      symbol-Allowed prev t e (contains-left t operators punctuation is) h
  emit-Allowed prev t punct e is lit h =
      symbol-Allowed prev t e (contains-right_part t operators punctuation is) h
  emit-Allowed prev t keyword e is lit h = let same = ok_inj _ e h in rw (← same) (word is.0 is.1)
  emit-Allowed prev t numeric e is lit h = let same = ok_inj _ e h in rw (← same) (numeral is)
  emit-Allowed prev t string e is lit h =
      let same = ok_inj _ e h in rw (← same) (literal is (lit is))
  emit-Allowed prev t identifier e is lit h = elim (Option-cases (lookup t columns)) [
    | inl absent ↦ cc (rw (absent, emit) at h)
    | inr (c, found) ↦ let same = ok_inj _ e (rw (found, emit) at h) in rw (← same) (column t found)
  ]
  emit-Allowed prev t unsupported e is lit h = cc h

  rewrite_tokens-AllowedText :
      (prev : Option String) (tokens : List String) (e : Emitted)
      → All (λ t. is_string t ≡ true → Literal t) tokens
      → rewrite_tokens u columns path prev tokens ≡ ok e
      → AllowedText u columns Literal e.text e.names
  unfolding rewrite_tokens
  rewrite_tokens-AllowedText prev [] e lits h = let same = ok_inj _ e h in rw (← same) nothing
  rewrite_tokens-AllowedText prev (t ∷ tokens) e lits h =
      elim (Bool-cases (some_chars u.is_space t)) [
        | inl space ↦
            let (rest, later, done) =
              >>=-eq-ok (rewrite_tokens u columns path prev tokens)
                (λ (rest : Emitted). ok (append_emitted (plain t) rest))
                (rw (space, rewrite_tokens) at h) in
            let same = ok_inj (append_emitted (plain t) rest) e done in
            part t rest.text [] rest.names (spaces space)
              (rewrite_tokens-AllowedText prev tokens rest lits.1 later)
              (sym (ap Emitted.text same)) (sym (ap Emitted.names same))
        | inr other ↦
            let (first, made, h') =
              >>=-eq-ok (emit u columns path prev t (classify u t))
                (λ (a : Emitted). rewrite_tokens u columns path (some t) tokens >>= λ rest.
                  ok (append_emitted a rest))
                (rw (other, rewrite_tokens) at h) in
            let (rest, later, done) =
              >>=-eq-ok (rewrite_tokens u columns path (some t) tokens)
                (λ (rest : Emitted). ok (append_emitted first rest)) h' in
            let same = ok_inj (append_emitted first rest) e done in
            part first.text rest.text first.names rest.names
              (emit-Allowed prev t (classify u t) first (classify-IsOfKind u t) lits.0 made)
              (rewrite_tokens-AllowedText (some t) tokens rest lits.1 later)
              (sym (ap Emitted.text same)) (sym (ap Emitted.names same))
      ]

  -- When `_rewrite_where` comes back with a text, the text is one part after another of the
  -- allowlist: white space, an operator, a bracket or comma, a keyword, a number, a string literal
  -- (of which `Literal` holds, if it does of all such tokens), a column of the map, or one
  -- `${args.NAME}`; and `where_args` is the names of the last, in order.
  pub rewrite_where-AllowedText :
      (where_text : String) (r : Where)
      → All (λ t. is_string t ≡ true → Literal t) (tokenize u where_text)
      → rewrite_where u (some where_text) columns path ≡ ok r
      → (sql : String) × (r.where_sql ≡ some sql) × AllowedText u columns Literal sql r.where_args
  unfolding rewrite_where
  rewrite_where-AllowedText where_text r lits h =
      let (e, made, done) =
        >>=-eq-ok (rewrite_tokens u columns path none (tokenize u where_text)) _ h in
      let same = ok_inj _ r done in
      (
        e.text,
        sym (ap Where.where_sql same),
        subst (AllowedText u columns Literal e.text) (ap Where.where_args same)
            (rewrite_tokens-AllowedText none (tokenize u where_text) e lits made),
      )
