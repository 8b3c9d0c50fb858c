-- ===== src/Examples/Sql.antt =====
-- The where text of an operation, from the document to the statements.
use hse_graduate_qualificati.Base.{
  String, ◌≡◌, refl, true, ◌==◌, none, some, [], ◌∷◌, All, contains, Bool-cases, inl, inr,
}
use hse_graduate_qualificati.Base.Dict.{Dict, lookup, insert, has_key, mapped}
use hse_graduate_qualificati.Base.Exec.{ok, raise, dsl_error, value_error}
use hse_graduate_qualificati.Dsl.Errors.{yaml_schema}
use hse_graduate_qualificati.Graphql.Server.Resolvers.{coerce_args}
use hse_graduate_qualificati.Base.Int.{pos}
use hse_graduate_qualificati.Base.Items.{get_item}
use hse_graduate_qualificati.Base.Sorted.{sort_items}
use hse_graduate_qualificati.Dsl.Loader.Resolve.{resolve_query, resolve_mutation}
use hse_graduate_qualificati.Dsl.Loader.Tokens.{tokenize}
use hse_graduate_qualificati.Dsl.Loader.Where.{Where, arg_name, is_string, rewrite_where}
use hse_graduate_qualificati.Dsl.Loader.Where.Agreement.{rewrite_where-placeholders}
use hse_graduate_qualificati.Dsl.Loader.Where.Allowed.{AllowedText, rewrite_where-AllowedText}
use hse_graduate_qualificati.Dsl.Placeholder.{match_arg}
use hse_graduate_qualificati.Dsl.Placeholder.Split.{split, placeholders, pieces}
use hse_graduate_qualificati.Dsl.Placeholder.Split.Parts.{has_no_dollar}
use hse_graduate_qualificati.Dsl.Registry.{ResolvedQuery, ResolvedMutation}
use hse_graduate_qualificati.Dsl.Schema.{
  TableMapping, QuerySpec, MutationSpec, InvalidatesSpec, operation, one, update,
}
use hse_graduate_qualificati.Dsl.Value.{Args, show_nat, Value, int, text, null}
use hse_graduate_qualificati.Examples.Ascii.{ascii, ascii_laws}
use hse_graduate_qualificati.Sql.Builder.{Statement, MutationSql, build_select, build_mutation}
use hse_graduate_qualificati.Sql.Builder.Loaded.{
  TablesHaveNoDollar, resolve_query-build_select, resolve_mutation-build_mutation,
}
use hse_graduate_qualificati.Sql.Builder.Mutations.{
  MutationSays, build_mutation-Says, build_mutation-sql,
}
use hse_graduate_qualificati.Sql.Builder.Statements.{Says, select_text}
use hse_graduate_qualificati.Sql.Builder.Total.{AreGiven, AllGiven}

abbrev where_text : String
where_text = "id = ${args.id} and name != 'x'"

abbrev pub columns : Dict String
columns = ("id", "user_id") ∷ ("name", "user_name") ∷ []

abbrev pub rewritten : Where
rewritten = record {
  where_sql = some "user_id = ${args.id} and user_name != 'x'";
  where_args = "id" ∷ [];
}

tokens_are :
    tokenize ascii where_text
    ≡ "id" ∷ " " ∷ "=" ∷ " " ∷ "${args.id}" ∷ " " ∷ "and" ∷ " " ∷ "name" ∷ " " ∷ "!=" ∷ " " ∷ "'x'"
      ∷ []
unfolding tokenize ascii
tokens_are = refl

rewritten_is : rewrite_where ascii (some where_text) columns "queries.user.where" ≡ ok rewritten
unfolding rewrite_where ascii match_arg contains lookup
rewritten_is = refl

-- No token of the text is a string literal with a `$`.
pub literals_clean :
    All (λ t. is_string t ≡ true → has_no_dollar t ≡ true) (tokenize ascii where_text)
unfolding tokenize ascii is_string has_no_dollar
literals_clean = (
  λ h. refl,
  (
    λ h. refl,
    (
      λ h. refl,
      (
        λ h. refl,
        (
          λ h. cc h,
          (
            λ h. refl,
            (
              λ h. refl,
              (λ h. refl, (λ h. refl, (λ h. refl, (λ h. refl, (λ h. refl, (λ h. refl, tt)))))),
            ),
          ),
        ),
      ),
    ),
  ),
)

rewrite_where-AllowedText_example :
    (sql : String) × (rewritten.where_sql ≡ some sql)
    × AllowedText ascii columns (λ t. has_no_dollar t ≡ true) sql ("id" ∷ [])
rewrite_where-AllowedText_example =
    rewrite_where-AllowedText ascii columns "queries.user.where" (λ t. has_no_dollar t ≡ true)
      where_text rewritten literals_clean rewritten_is

clean_column : (field c : String) → lookup field columns ≡ some c → has_no_dollar c ≡ true
unfolding lookup has_no_dollar
clean_column field c h = elim (Bool-cases ("id" == field)) [
  | inl first ↦
      let e : some "user_id" ≡ some c = rw first at h in let it : "user_id" ≡ c = cc e in rw (← it)
  | inr other ↦ elim (Bool-cases ("name" == field)) [
    | inl second ↦
        let e : some "user_name" ≡ some c = rw (other, second) at h in
        let it : "user_name" ≡ c = cc e in rw (← it)
    | inr neither ↦ cc (rw (other, neither) at h)
  ]
]

rewrite_where-placeholders_example :
    (sql : String) × (rewritten.where_sql ≡ some sql) × (placeholders (split sql) ≡ "id" ∷ [])
rewrite_where-placeholders_example =
    rewrite_where-placeholders ascii ascii_laws columns clean_column where_text "queries.user.where"
      rewritten literals_clean rewritten_is

abbrev users : TableMapping
users = record { table = "users"; primary_key = "user_id"; columns = columns }

abbrev pub tables : Dict TableMapping
tables = ("User", users) ∷ []

pub tables_clean : TablesHaveNoDollar tables
unfolding lookup
tables_clean name table h = elim (Bool-cases ("User" == name)) [
  | inr other ↦ cc (rw other at h)
  | inl same ↦
      let e : some users ≡ some table = rw same at h in
      let it : users ≡ table = cc e in rw (← it) clean_column
]

abbrev pub user_spec : QuerySpec
user_spec = record {
  type_name = "User";
  source = "postgres";
  multiplicity = one;
  where_text = some where_text;
}

abbrev pub user_query : ResolvedQuery
user_query = record {
  name = "user";
  type_name = "User";
  table = "users";
  columns = columns;
  primary_key = "user_id";
  multiplicity = one;
  where_sql = rewritten.where_sql;
  where_args = rewritten.where_args;
}

abbrev pub user_args : Args
user_args = ("id", int (pos 7)) ∷ ("name", text "Ann") ∷ []

pub query_is : resolve_query ascii tables "user" user_spec ≡ ok user_query
unfolding resolve_query ascii match_arg contains lookup
query_is = refl

id_given : AreGiven user_args ("id" ∷ [])
unfolding has_key
id_given = (refl, tt)

resolve_query-build_select_example :
    (s : Statement) × (build_select user_query user_args ≡ ok s)
    × Says (select_text columns "users" rewritten.where_sql) ("id" ∷ []) user_args s
resolve_query-build_select_example =
    resolve_query-build_select ascii ascii_laws tables tables_clean "user" user_spec user_query
      user_args literals_clean query_is id_given

abbrev select_statement : Statement
select_statement = record {
  sql = "SELECT user_id, user_name FROM users WHERE user_id = $1 and user_name != 'x'";
  params = int (pos 7) ∷ [];
}

select_is : build_select user_query user_args ≡ ok select_statement
unfolding build_select split pieces match_arg lookup get_item sort_items show_nat
select_is = refl

abbrev pub by_rule : InvalidatesSpec
by_rule = record { strategy = operation; rules = some ("r" ∷ []); tags = none }

abbrev pub rename_spec : MutationSpec
rename_spec = record {
  type_name = "User";
  source = "postgres";
  kind = update;
  set_values = some (("name", "${args.name}") ∷ []);
  where_text = some where_text;
  invalidates = some by_rule;
}

abbrev pub rename : ResolvedMutation
rename = record {
  name = "rename";
  type_name = "User";
  table = "users";
  columns = columns;
  primary_key = "user_id";
  kind = update;
  set_columns = some (("user_name", "${args.name}") ∷ []);
  where_sql = rewritten.where_sql;
  where_args = rewritten.where_args;
  invalidates = some by_rule;
}

rename_is : resolve_mutation ascii tables "rename" rename_spec ≡ ok rename
unfolding resolve_mutation ascii match_arg contains lookup insert sort_items
rename_is = refl

name_given : AllGiven user_args (("name", "${args.name}") ∷ [])
unfolding has_key arg_name match_arg
name_given = (record { name = "name"; whole = refl; given = refl }, tt)

resolve_mutation-build_mutation_example :
    (r : MutationSql) × (build_mutation rename user_args ≡ ok r)
    × MutationSays update rename user_args r
resolve_mutation-build_mutation_example =
    resolve_mutation-build_mutation ascii ascii_laws tables tables_clean "rename" rename_spec rename
      user_args literals_clean rename_is id_given name_given

abbrev pub value_at : String → Args → Value
unfolding lookup
value_at k args = elim (lookup k args) [ none ↦ null | some v ↦ v ]

abbrev pub rename_sql : Args → MutationSql
rename_sql args = record {
  write = record {
    sql = "UPDATE users SET user_name = $1 WHERE user_id = $2 and user_name != 'x'";
    params = value_at "name" args ∷ value_at "id" args ∷ [];
  };
  read = some (record {
    sql = "SELECT user_id, user_name FROM users WHERE user_id = $1 and user_name != 'x'";
    params = value_at "id" args ∷ [];
  });
}

abbrev other_args : Args
other_args = ("id", int (pos 8)) ∷ ("name", text "'; DROP TABLE users") ∷ []

pub rename_sql_is : build_mutation rename user_args ≡ ok (rename_sql user_args)
unfolding build_mutation split pieces match_arg lookup get_item sort_items show_nat
rename_sql_is = refl

other_sql_is : build_mutation rename other_args ≡ ok (rename_sql other_args)
unfolding build_mutation split pieces match_arg lookup get_item sort_items show_nat
other_sql_is = refl

build_mutation-Says_example : MutationSays update rename user_args (rename_sql user_args)
build_mutation-Says_example =
    build_mutation-Says rename user_args (rename_sql user_args) rename_sql_is

build_mutation-sql_example :
    ((rename_sql user_args).write.sql ≡ (rename_sql other_args).write.sql)
    × (mapped Statement.sql (rename_sql user_args).read
        ≡ mapped Statement.sql (rename_sql other_args).read)
build_mutation-sql_example =
    build_mutation-sql rename user_args other_args (rename_sql user_args) (rename_sql other_args)
      rename_sql_is other_sql_is

-- A string literal with a space is split, and its first piece is refused.
spaced_literal :
    rewrite_where ascii (some "name = 'a b'") columns "queries.user.where"
    ≡ raise (
        dsl_error yaml_schema "queries.user.where"
          "unsupported operator/syntax ''a' in where; dsl-spec section 6 allowlist only")
unfolding rewrite_where ascii match_arg contains lookup
spaced_literal = refl

-- Two minus signs pass the test for a number, and are none.
two_signs :
    coerce_args ascii (("id", text "--5") ∷ [])
    ≡ raise (value_error "invalid literal for int() with base 10: '--5'")
unfolding coerce_args ascii
two_signs = refl
