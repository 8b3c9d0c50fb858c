-- ===== src/Graphql/Server/Resolvers.antt =====
-- framework/graphql/server.py: `_coerce_args` and the two resolvers. asyncpg is the fields of
-- `Database`, over the database's state with its connection.
pub mod Transactions
pub mod Answers
use Prim.Native.Char.{Char, code}
use Prim.Native.String
use Prim.Native.String.{◌++◌, count}
use hse_graduate_qualificati.Base.{
  ℕ, ◌+◌, ◌*◌, String, Bool, true, false, ◌&&◌, Option, none, some, List, [], ◌∷◌, nat_eq, leb,
  if◌then◌else◌,
}
use hse_graduate_qualificati.Base.Dict.{Dict}
use hse_graduate_qualificati.Base.Exec.{Error, Result, ok, raise, value_error, Exec, after, ◌>>=◌}
use hse_graduate_qualificati.Base.Int.{ℤ, pos, sub_ℕ}
use hse_graduate_qualificati.Base.Unicode.{Unicode}
use hse_graduate_qualificati.Dsl.Loader.Where.{some_chars}
use hse_graduate_qualificati.Dsl.Registry.{ResolvedQuery, ResolvedMutation}
use hse_graduate_qualificati.Dsl.Value.{Args, Value, text, int, boolean, null}
use hse_graduate_qualificati.Graphql.Server.{
  Row, Answer, null_row, one_row, answer_rows, row_to_dict,
}
use hse_graduate_qualificati.Sql.Builder.{Statement, MutationSql, build_select, build_mutation}

-- `v.lstrip("-")`
unfoldable pub lstrip_minus : String → String
lstrip_minus String.[] = ""
lstrip_minus (String.◌∷◌ c s) =
    let rest = lstrip_minus s in if nat_eq (code c) 45 then rest else String.◌∷◌ c s

-- The number that decimal digits write, behind `n`; none when a character is no decimal digit.
unfoldable pub read_digits : Unicode → ℕ → String → Option ℕ
read_digits u n String.[] = some n
read_digits u n (String.◌∷◌ c s) = elim (u.decimal c) [
  | none ↦ none
  | some d ↦ read_digits u (n * 10 + d) s
]

-- The most digits that `int` reads, unless the interpreter is told otherwise.
abbrev pub int_max_str_digits : ℕ
int_max_str_digits = 4300

abbrev pub invalid_literal {ℓ} : {A : Type ℓ} → String → Result A
invalid_literal v = raise (value_error ("invalid literal for int() with base 10: '" ++ (v ++ "'")))

abbrev pub int_of_digits : Unicode → (ℕ → ℤ) → String → String → Result Value
int_of_digits u signed v digits =
    if leb (count digits) int_max_str_digits
    then elim (read_digits u 0 digits) [ none ↦ invalid_literal v | some n ↦ ok (int (signed n)) ]
    else raise (value_error "Exceeds the limit (4300 digits) for integer string conversion")

-- `int(v)`, of a text that holds digits behind minus signs. One sign is read; a second one, or a
-- digit that is not decimal, is an error.
unfoldable pub parse_int : Unicode → String → Result Value
unfolding read_digits
parse_int u String.[] = invalid_literal ""
parse_int u (String.◌∷◌ c s) =
    let v = String.◌∷◌ c s in
    if nat_eq (code c) 45
    then if nat_eq (count s) 0 then invalid_literal v else int_of_digits u (λ n. sub_ℕ 0 n) v s
    else int_of_digits u pos v v

unfoldable pub coerce_value : Unicode → Value → Result Value
unfolding lstrip_minus parse_int some_chars
coerce_value u (text v) =
    if some_chars u.is_digit (lstrip_minus v) then parse_int u v else ok (text v)
coerce_value u (int n) = ok (int n)
coerce_value u (boolean b) = ok (boolean b)
coerce_value u null = ok null

unfoldable pub coerce_args : Unicode → Args → Result Args
unfolding coerce_value
coerce_args u [] = ok []
coerce_args u ((k, v) ∷ args) = do w ← coerce_value u v; out ← coerce_args u args; ok ((k, w) ∷ out)

-- asyncpg's pool and a connection's methods.
pub record Database (D : Type 0) : Type 0 where
  pub acquire : Exec D (Unit {0})
  pub release : Exec D (Unit {0})
  pub begin : Exec D (Unit {0})
  pub commit : Exec D (Unit {0})
  pub rollback : Exec D (Unit {0})
  pub execute : Statement → Exec D (Unit {0})
  pub fetch : Statement → Exec D (List Row)

-- What a method does when a call that touches no state has come back.
abbrev pub given {ℓ} : {S A B : Type ℓ} → Result A → (A → Exec S B) → Exec S B
given r next s = elim r [ raise e ↦ (raise e, s) | ok a ↦ next a s ]

module _ {D : Type 0} (db : Database D) where
  -- `async with pool.acquire() as conn`: the connection is released however the block ends, and an
  -- error of the release takes the place of what came of the block.
  unfoldable pub with_connection : {A : Type 0} → Exec D A → Exec D A
  with_connection body d =
      after (db.acquire d)
        (λ _ d1. let (r, d2) = body d1 in after (db.release d2) (λ _ d3. (r, d3)))

  -- `async with conn.transaction()`: the block's end commits, an error in it rolls back, and
  -- an error of the rollback takes its place.
  unfoldable pub transaction : {A : Type 0} → Exec D A → Exec D A
  transaction body d = after (db.begin d) (λ _ d1.
      let (r, d2) = body d1 in
      elim r [
        | raise e ↦ after (db.rollback d2) (λ _ d3. (raise e, d3))
        | ok a ↦ after (db.commit d2) (λ _ d3. (ok a, d3))
      ])

  -- `_make_query_resolver`
  unfoldable pub query_resolver : Unicode → ResolvedQuery → Args → Exec D Answer
  unfolding with_connection coerce_args build_select answer_rows
  query_resolver u q args = given (coerce_args u args >>= build_select q) (λ statement d.
      after (with_connection (db.fetch statement) d)
        (λ rows d1. (answer_rows q.name q.multiplicity q.columns rows, d1)))

  -- `rows[0]`, if there is one
  unfoldable pub first_row : Dict String → List Row → Result Answer
  unfolding row_to_dict
  first_row columns [] = ok null_row
  first_row columns (row ∷ rows) = do fields ← row_to_dict row columns; ok (one_row fields)

  -- the block of the transaction
  unfoldable pub run_statements : ResolvedMutation → MutationSql → Exec D Answer
  unfolding first_row
  run_statements m sql d = after (db.execute sql.write d) (λ _ d1. elim sql.read [
    | none ↦ (ok null_row, d1)
    | some read ↦ after (db.fetch read d1) (λ rows d2. (first_row m.columns rows, d2))
  ])

  -- `_make_mutation_resolver`
  unfoldable pub mutation_resolver : Unicode → ResolvedMutation → Args → Exec D Answer
  unfolding with_connection transaction run_statements coerce_args build_mutation
  mutation_resolver u m args =
      given (coerce_args u args >>= build_mutation m)
        (λ sql. with_connection (transaction (run_statements m sql)))
