-- ===== src/Sql/Builder.antt =====
-- framework/sql/builder.py. In the text of an error `{x!r}` is written as `x` in single quotes.
pub mod Texts
pub mod Sets
pub mod Statements
pub mod Mutations
pub mod Loaded
pub mod Total
use Prim.Native.String.{◌++◌, count}
use hse_graduate_qualificati.Base.{
  ℕ, suc, ◌+◌, String, Option, none, some, List, [], ◌∷◌, nat_eq, length, if◌then◌else◌,
}
use hse_graduate_qualificati.Base
use hse_graduate_qualificati.Base.Dict.{Dict}
use hse_graduate_qualificati.Base.Exec.{
  Result, ok, raise, value_error, assertion_error, ◌>>=◌, ◌>>◌,
}
use hse_graduate_qualificati.Base.Items.{get_item}
use hse_graduate_qualificati.Base.Sorted.{sort_items}
use hse_graduate_qualificati.Base.Texts.{join}
use hse_graduate_qualificati.Dsl.Placeholder.{match_arg}
use hse_graduate_qualificati.Dsl.Placeholder.Split.{Piece, literal, placeholder, split}
use hse_graduate_qualificati.Dsl.Registry.{ResolvedQuery, ResolvedMutation}
use hse_graduate_qualificati.Dsl.Schema.{MutationKind, update, delete}
use hse_graduate_qualificati.Dsl.Value.{Args, Value, show_nat}

-- A statement: its text, and the values of its parameters `$1`, `$2`, ….
pub record Statement : Type 0 where
  pub sql : String
  pub params : List Value

-- `f"${index}"`
unfoldable pub dollar : ℕ → String
dollar index = "$" ++ show_nat index

unfoldable pub values {ℓ} : {V : Type ℓ} → Dict V → List V
values [] = []
values ((k, v) ∷ d) = v ∷ values d

-- Each key of the dict is looked up in it, so the values come in the order of the keys.
unfoldable pub projection : Dict String → String
unfolding join values
projection columns = join ", " (values (sort_items columns))

abbrev pub prepend : String → Statement → Statement
prepend text s = record s { sql = text ++ s.sql }

abbrev pub bind_param : Value → Statement → Statement
bind_param value s = record s { params = value ∷ s.params }

-- `_ARG_PLACEHOLDER_RE.sub(_sub, where_sql)`, with the counter and the list that `_sub` fills
unfoldable pub substitute_params : ℕ → Args → List Piece → Result Statement
unfolding dollar
substitute_params i args [] = ok (record { sql = ""; params = [] })
substitute_params i args (literal c ∷ rest) = do
  s ← substitute_params i args rest
  ok (prepend (String.◌∷◌ c String.[]) s)
substitute_params i args (placeholder name ∷ rest) = do
  value ← get_item name args
  s ← substitute_params (suc i) args rest
  ok (prepend (dollar i) (bind_param value s))

unfoldable pub renumber_where : String → List String → Args → ℕ → Result Statement
unfolding substitute_params
renumber_where where_sql where_args args start_index =
    substitute_params start_index args (split where_sql) >>= λ s.
    if nat_eq (length s.params) (length where_args)
    then ok s
    else raise (
        assertion_error (
          "placeholder count mismatch: rewrote "
          ++ (show_nat (length s.params)
              ++ (" but loader recorded " ++ (show_nat (length where_args) ++ " where_args")))))

-- `fullmatch`: the pattern's only match at the beginning covers the text.
unfoldable pub extract_arg_name : String → String → Result String
extract_arg_name value_template context =
    let refused = raise (
      value_error (
        context
        ++ (": value template '"
            ++ (value_template ++ "' is not a single '${args.NAME}' placeholder")))) in
    elim (match_arg value_template) [
      | none ↦ refused
      | some (name, n) ↦ if nat_eq n (count value_template) then ok name else refused
    ]

-- the loops over `enumerate(mut.set_columns.items(), start=1)`: what they share, a column, its
-- index and its value for each item
pub record SetItem : Type 0 where
  pub pg_col : String
  pub index : ℕ
  pub value : Value

unfoldable pub set_items : String → Args → ℕ → Dict String → Result (List SetItem)
unfolding extract_arg_name
set_items name args index [] = ok []
set_items name args index ((pg_col, value_template) ∷ items) = do
  arg_name ← extract_arg_name value_template ("mutations." ++ (name ++ (".set." ++ pg_col)))
  value ← get_item arg_name args
  rest ← set_items name args (suc index) items
  ok (record { pg_col = pg_col; index = index; value = value } ∷ rest)

-- a WHERE clause behind a text, or none
unfoldable pub with_where : String → Option String → List String → Args → Result Statement
unfolding renumber_where
with_where sql none where_args args = ok (record { sql = sql; params = [] })
with_where sql (some where_sql) where_args args = do
  clause ← renumber_where where_sql where_args args 1
  ok (prepend (sql ++ " WHERE ") clause)

unfoldable pub build_select : ResolvedQuery → Args → Result Statement
unfolding with_where projection
build_select query args =
    with_where ("SELECT " ++ (projection query.columns ++ (" FROM " ++ query.table)))
      query.where_sql query.where_args args

unfoldable pub insert_statement : String → List SetItem → Statement
unfolding join dollar
insert_statement table items = record {
  sql =
      "INSERT INTO "
      ++ (table
          ++ (" ("
              ++ (join ", " (Base.map (λ (i : SetItem). i.pg_col) items)
                  ++ (") VALUES ("
                      ++ (join ", " (Base.map (λ (i : SetItem). dollar i.index) items) ++ ")")))));
  params = Base.map (λ (i : SetItem). i.value) items;
}

unfoldable pub build_insert : ResolvedMutation → Args → Result Statement
unfolding set_items insert_statement
build_insert mut args = elim mut.set_columns [
  | none ↦ raise (value_error ("insert mutation '" ++ (mut.name ++ "' has no set_columns")))
  | some columns ↦
      set_items mut.name args 1 columns >>= λ items. ok (insert_statement mut.table items)
]

-- `UPDATE … SET …`, before the WHERE clause
unfoldable pub update_statement : String → List SetItem → Statement
unfolding join dollar
update_statement table items = record {
  sql =
      "UPDATE "
      ++ (table
          ++ (" SET "
              ++ join ", "
                  (Base.map (λ (i : SetItem). i.pg_col ++ (" = " ++ dollar i.index)) items)));
  params = Base.map (λ (i : SetItem). i.value) items;
}

-- the end of `_build_update`
unfoldable pub update_where : Option String → List String → Args → Statement → Result Statement
unfolding renumber_where
update_where none where_args args s = ok s
update_where (some where_sql) where_args args s = do
  clause ← renumber_where where_sql where_args args (length s.params + 1)
  ok (record {
    sql = s.sql ++ (" WHERE " ++ clause.sql);
    params = Base.◌++◌ s.params clause.params;
  })

unfoldable pub build_update : ResolvedMutation → Args → Result Statement
unfolding set_items update_statement update_where
build_update mut args = elim mut.set_columns [
  | none ↦ raise (value_error ("update mutation '" ++ (mut.name ++ "' has no set_columns")))
  | some columns ↦ set_items mut.name args 1 columns >>= λ items.
      update_where mut.where_sql mut.where_args args (update_statement mut.table items)
]

unfoldable pub build_delete : ResolvedMutation → Args → Result Statement
unfolding with_where
build_delete mut args = with_where ("DELETE FROM " ++ mut.table) mut.where_sql mut.where_args args

unfoldable pub build_post_update_select : ResolvedMutation → Args → Result Statement
unfolding with_where projection
build_post_update_select mut args =
    with_where ("SELECT " ++ (projection mut.columns ++ (" FROM " ++ mut.table))) mut.where_sql
      mut.where_args args

-- The write, and the read that follows an update. That `kind` is one of three is its type, so the
-- last `raise` of the source cannot be reached.
pub record MutationSql : Type 0 where
  pub write : Statement
  pub read : Option Statement

unfoldable pub build_by_kind : MutationKind → ResolvedMutation → Args → Result MutationSql
unfolding build_insert build_delete build_update build_post_update_select
build_by_kind MutationKind.insert mut args = do
  write ← build_insert mut args
  ok (record { write = write; read = none })
build_by_kind delete mut args = do
  write ← build_delete mut args
  ok (record { write = write; read = none })
build_by_kind update mut args = do
  write ← build_update mut args
  read ← build_post_update_select mut args
  ok (record { write = write; read = some read })

unfoldable pub build_mutation : ResolvedMutation → Args → Result MutationSql
unfolding build_by_kind
build_mutation mut args = build_by_kind mut.kind mut args
