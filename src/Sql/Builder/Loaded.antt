-- ===== src/Sql/Builder/Loaded.antt =====
-- framework/sql/builder.py on the operations that framework/dsl/loader.py resolves.
use mathlib.Core.Path.{subst}
use hse_graduate_qualificati.Base.{
  String, ◌≡◌, refl, sym, ap, true, Option, none, some, List, [], ◌∷◌, All, ◌==◌, Bool-cases,
  Option-cases, inl, inr,
}
use hse_graduate_qualificati.Base.Dict.{Dict, lookup, insert}
use hse_graduate_qualificati.Base.Exec.{ok, ok_inj, >>=-eq-ok}
use hse_graduate_qualificati.Base.Sorted.{before, insert_sorted, sort_items}
use hse_graduate_qualificati.Base.Unicode.{Unicode}
use hse_graduate_qualificati.Dsl.Loader.Checks.{require_set_for_kind, needs_set}
use hse_graduate_qualificati.Dsl.Loader.Resolve.{resolve_query, resolve_mutation}
use hse_graduate_qualificati.Dsl.Loader.Resolve.Entries.{resolve_query_lem, resolve_mutation_lem}
use hse_graduate_qualificati.Dsl.Loader.Tokens.{tokenize}
use hse_graduate_qualificati.Dsl.Loader.Where.{
  Where, is_string, rewrite_where, rewrite_items, rewrite_set,
}
use hse_graduate_qualificati.Dsl.Loader.Where.Agreement.{
  DollarLaws, ColumnsHaveNoDollar, rewrite_where-placeholders,
}
use hse_graduate_qualificati.Dsl.Placeholder.Split.Parts.{has_no_dollar}
use hse_graduate_qualificati.Dsl.Registry.{ResolvedQuery, ResolvedMutation}
use hse_graduate_qualificati.Dsl.Schema.{
  MutationKind, update, delete, TableMapping, QuerySpec, MutationSpec,
}
use hse_graduate_qualificati.Dsl.Value.{Args}
use hse_graduate_qualificati.Sql.Builder.{Statement, MutationSql, build_select, build_mutation}
use hse_graduate_qualificati.Sql.Builder.Mutations.{MutationSays, build_mutation-Says}
use hse_graduate_qualificati.Sql.Builder.Statements.{
  Says, select_text, where_names, build_select-Says,
}
use hse_graduate_qualificati.Sql.Builder.Total.{
  AreGiven, Agree, without, within, IsGiven, AllGiven, HasColumns, build_select-total,
  build_mutation-total,
}

-- The string literals of a where text have no `$`.
abbrev pub LiteralsHaveNoDollar : Unicode → Option String → Type 0
LiteralsHaveNoDollar u none = Unit
LiteralsHaveNoDollar u (some text) =
    All (λ t. is_string t ≡ true → has_no_dollar t ≡ true) (tokenize u text)

-- What is relied on of the tables: no column's name has a `$`.
abbrev pub TablesHaveNoDollar : Dict TableMapping → Type 0
TablesHaveNoDollar tables =
    (name : String) (table : TableMapping)
    → lookup name tables ≡ some table
    → ColumnsHaveNoDollar table.columns

Agree-where_names :
    (o : Option String) (names : List String) → Agree o names → where_names o ≡ names
unfolding where_names
Agree-where_names none _ without = refl
Agree-where_names (some sql) names (within same) = same

rewrite_where-Agree :
    (u : Unicode) (L : DollarLaws u) (columns : Dict String) (clean : ColumnsHaveNoDollar columns)
    → (o : Option String) (path : String) (w : Where) → LiteralsHaveNoDollar u o
    → rewrite_where u o columns path ≡ ok w
    → Agree w.where_sql w.where_args
unfolding rewrite_where
rewrite_where-Agree u L columns clean none path w lits h = let e = ok_inj _ w h in rw (← e) without
rewrite_where-Agree u L columns clean (some text) path w lits h =
    let (sql, is_sql, same) = rewrite_where-placeholders u L columns clean text path w lits h in
    rw is_sql (within same)

-- For a query that the loader has resolved, and arguments that have values for its `where_args`,
-- `build_select` comes back: its assertion on the number of placeholders never fails, and the
-- statement binds the values of the `where_args`, in order. A `$` may stand only in the placeholders
-- of the where text.
pub resolve_query-build_select :
    (u : Unicode) (L : DollarLaws u) (tables : Dict TableMapping)
    (clean : TablesHaveNoDollar tables)
    → (op_name : String) (spec : QuerySpec) (q : ResolvedQuery) (args : Args)
    → LiteralsHaveNoDollar u spec.where_text
    → resolve_query u tables op_name spec ≡ ok q
    → AreGiven args q.where_args
    → (s : Statement) × (build_select q args ≡ ok s)
      × Says (select_text q.columns q.table q.where_sql) q.where_args args s
resolve_query-build_select u L tables clean op_name spec q args lits h given =
    let (table, w, mapped_to, rewritten, _, _, is_sql, is_args) =
      resolve_query_lem u tables op_name spec q h in
    let agree_w =
      rewrite_where-Agree u L table.columns (clean spec.type_name table mapped_to) spec.where_text _
        w lits rewritten in
    let agree : Agree q.where_sql q.where_args = rw (is_sql, is_args) agree_w in
    let (s, made) = build_select-total q args agree given in
    let says = build_select-Says q args s made in
    (
      s,
      made,
      record {
        text = says.text;
        bound = rw (Agree-where_names q.where_sql q.where_args agree) at says.bound;
      },
    )

-- The values of a dict pass.
abbrev AllValues : (String → Type 0) → Dict String → Type 0
AllValues P d = All (λ (item : String × String). P item.1) d

module _ (P : String → Type 0) where
  insert-AllValues :
      (k v : String) (d : Dict String) → P v → AllValues P d → AllValues P (insert k v d)
  unfolding insert
  insert-AllValues k v [] p all = (p, tt)
  insert-AllValues k v ((j, w) ∷ d) p (here, all) = elim (Bool-cases (j == k)) [
    | inl same ↦ rw same (p, all)
    | inr differs ↦ rw differs (here, insert-AllValues k v d p all)
  ]

  insert_sorted-AllValues :
      (k v : String) (d : Dict String) → P v → AllValues P d → AllValues P (insert_sorted k v d)
  unfolding insert_sorted
  insert_sorted-AllValues k v [] p all = (p, tt)
  insert_sorted-AllValues k v ((j, w) ∷ d) p (here, all) = elim (Bool-cases (before k j)) [
    | inl first ↦ rw first (p, (here, all))
    | inr later ↦ rw later (here, insert_sorted-AllValues k v d p all)
  ]

  sort_items-AllValues : (d : Dict String) → AllValues P d → AllValues P (sort_items d)
  unfolding sort_items
  sort_items-AllValues [] all = tt
  sort_items-AllValues ((k, v) ∷ d) (here, all) =
      insert_sorted-AllValues k v (sort_items d) here (sort_items-AllValues d all)

  rewrite_items-AllValues :
      (columns : Dict String) (path : String) (done items d : Dict String)
      → AllValues P done
      → AllValues P items
      → rewrite_items columns path done items ≡ ok d
      → AllValues P d
  unfolding rewrite_items
  rewrite_items-AllValues columns path done [] d before all h =
      subst (AllValues P) (ok_inj done d h) before
  rewrite_items-AllValues columns path done ((field, value) ∷ items) d before (here, all) h =
      elim (Option-cases (lookup field columns)) [
        | inl absent ↦ cc (rw (absent, rewrite_items) at h)
        | inr (column, found) ↦
            rewrite_items-AllValues columns path (insert column value done) items d
              (insert-AllValues column value done here before) all (rw (found, rewrite_items) at h)
      ]

-- The values that the spec sets are single placeholders of arguments that are given.
abbrev pub ValuesAreGiven : Args → Option (Dict String) → Type 0
ValuesAreGiven args none = Unit
ValuesAreGiven args (some values) = AllGiven args values

needs_set-some :
    (spec : MutationSpec) (op_name : String)
    → require_set_for_kind spec op_name ≡ ok tt
    → needs_set spec.kind ≡ true
    → (values : Dict String) × (spec.set_values ≡ some values)
unfolding require_set_for_kind
needs_set-some spec op_name h needs = elim (Option-cases spec.set_values) [
  | inl absent ↦ cc (rw (absent, needs) at h)
  | inr there ↦ there
]

rewrite_set-AllGiven :
    (args : Args) (o o' : Option (Dict String)) (columns : Dict String) (path : String)
    (values : Dict String)
    → o ≡ some values
    → ValuesAreGiven args o
    → rewrite_set o columns path ≡ ok o'
    → (d : Dict String) × (o' ≡ some d) × AllGiven args d
unfolding rewrite_set
rewrite_set-AllGiven args none o' columns path values there given h = cc there
rewrite_set-AllGiven args (some v) o' columns path values there given h =
    let (d, made, done) = >>=-eq-ok (rewrite_items columns path [] (sort_items v)) _ h in
    (
      d,
      sym (ok_inj (some d) o' done),
      rewrite_items-AllValues (IsGiven args) columns path [] (sort_items v) d tt
          (sort_items-AllValues (IsGiven args) v given) made,
    )

HasColumns-resolved :
    (args : Args) (k : MutationKind) (o o' : Option (Dict String)) (columns : Dict String)
    (path : String)
    → ValuesAreGiven args o
    → rewrite_set o columns path ≡ ok o'
    → (needs_set k ≡ true → (values : Dict String) × (o ≡ some values))
    → HasColumns k args o'
HasColumns-resolved args MutationKind.insert o o' columns path given h needs =
    let (values, there) = needs refl in
    rewrite_set-AllGiven args o o' columns path values there given h
HasColumns-resolved args update o o' columns path given h needs =
    let (values, there) = needs refl in
    rewrite_set-AllGiven args o o' columns path values there given h
HasColumns-resolved args delete o o' columns path given h needs = tt

-- For a mutation that the loader has resolved, and arguments that have values for its `where_args`
-- and for the placeholders that it sets, `build_mutation` comes back: neither its assertion nor its
-- error for missing `set_columns` is met, and its statements say what the mutation's kind wants. That
-- each value that is set is one placeholder is supposed, for the loader does not look at them; a `$`
-- may stand only in the placeholders of the where text.
pub resolve_mutation-build_mutation :
    (u : Unicode) (L : DollarLaws u) (tables : Dict TableMapping)
    (clean : TablesHaveNoDollar tables)
    → (op_name : String) (spec : MutationSpec) (mut : ResolvedMutation) (args : Args)
    → LiteralsHaveNoDollar u spec.where_text
    → resolve_mutation u tables op_name spec ≡ ok mut
    → AreGiven args mut.where_args
    → ValuesAreGiven args spec.set_values
    → (r : MutationSql) × (build_mutation mut args ≡ ok r) × MutationSays mut.kind mut args r
resolve_mutation-build_mutation u L tables clean op_name spec mut args lits h given values =
    let (table, set_columns, w, mapped_to, checked, set_done, rewritten, is) =
      resolve_mutation_lem u tables op_name spec mut h in
    let agree_w =
      rewrite_where-Agree u L table.columns (clean spec.type_name table mapped_to) spec.where_text _
        w lits rewritten in
    let agree : Agree mut.where_sql mut.where_args =
      rw (ap ResolvedMutation.where_sql is, ap ResolvedMutation.where_args is) agree_w in
    let has_w =
      HasColumns-resolved args spec.kind spec.set_values set_columns table.columns _ values set_done
        (needs_set-some spec op_name checked) in
    let has : HasColumns mut.kind args mut.set_columns =
      rw (ap ResolvedMutation.kind is, ap ResolvedMutation.set_columns is) has_w in
    let (r, made) = build_mutation-total mut args agree given has in
    (r, made, build_mutation-Says mut args r made)
