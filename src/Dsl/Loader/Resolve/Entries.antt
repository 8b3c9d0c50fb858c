-- ===== src/Dsl/Loader/Resolve/Entries.antt =====
-- framework/dsl/loader.py: the entries of what `_resolve_queries` and `_resolve_mutations` return.
use Prim.Native.String.{◌++◌}
use hse_graduate_qualificati.Base.{
  String, ◌≡◌, sym, ap, ◌∙◌, ◌||◌, ◌==◌, some, [], ◌∷◌, if◌then◌else◌, arith, Bool-cases,
  Option-cases, inl, inr, ◌⊎◌, eq_iff,
}
use hse_graduate_qualificati.Base.Dict.{
  Dict, HasItem, lookup, insert, has_key, lookup-insert, has_key-insert,
}
use hse_graduate_qualificati.Base.Exec.{Result, ok, ok_inj, >>=-eq-ok}
use hse_graduate_qualificati.Base.Unicode.{Unicode}
use hse_graduate_qualificati.Dsl.Loader.Checks.{require_mapped_type, require_set_for_kind}
use hse_graduate_qualificati.Dsl.Loader.Resolve.{resolve_each, resolve_query, resolve_mutation}
use hse_graduate_qualificati.Dsl.Loader.Where.{Where, rewrite_where, rewrite_set}
use hse_graduate_qualificati.Dsl.Registry.{ResolvedQuery, ResolvedMutation}
use hse_graduate_qualificati.Dsl.Schema.{TableMapping, QuerySpec, MutationSpec}

module _ {ℓ κ} {S : Type ℓ} {R : Type κ} (resolve : String → S → Result R) where
  -- The names are those of the specs.
  pub resolve_each-has_key :
      (specs : Dict S) (resolved d : Dict R) (op : String)
      → resolve_each resolve specs resolved ≡ ok d
      → has_key op d ≡ (has_key op resolved || has_key op specs)
  unfolding resolve_each has_key
  resolve_each-has_key [] resolved d op h =
      let e : resolved ≡ d = ok_inj resolved d h in ground (arith, ap (has_key op) e)
  resolve_each-has_key ((name, spec) ∷ specs) resolved d op h =
      let (r, made, h') = >>=-eq-ok (resolve name spec) _ h in
      ground (
        arith,
        resolve_each-has_key specs (insert name r resolved) d op h',
        has_key-insert name op r resolved,
      )

  -- Each entry is what an item of the specs resolves to.
  pub resolve_each-lookup :
      (specs : Dict S) (resolved d : Dict R) (op : String) (r : R)
      → resolve_each resolve specs resolved ≡ ok d
      → lookup op d ≡ some r
      → (lookup op resolved ≡ some r)
        ⊎ ((spec : S) × HasItem op spec specs × (resolve op spec ≡ ok r))
  unfolding resolve_each
  resolve_each-lookup [] resolved d op r h found =
      let e : resolved ≡ d = ok_inj resolved d h in inl (ap (lookup op) e ∙ found)
  resolve_each-lookup ((name, spec) ∷ specs) resolved d op r h found =
      let (r', made, h') = >>=-eq-ok (resolve name spec) _ h in
      elim (resolve_each-lookup specs (insert name r' resolved) d op r h' found) [
        | inr (later, (front, back, is), at) ↦
            inr (later, ((name, spec) ∷ front, back, ap (λ items. (name, spec) ∷ items) is), at)
        | inl before ↦
            let it : (if name == op then some r' else lookup op resolved) ≡ some r =
              sym (lookup-insert name op r' resolved) ∙ before in
            elim (Bool-cases (name == op)) [
              | inr differs ↦ inl (rw differs at it)
              | inl same ↦
                  let here : some r' ≡ some r = rw same at it in
                  let name_is : name ≡ op = (eq_iff name op).0 same in
                  let value_is : r' ≡ r = cc here in
                  inr (
                    spec,
                    ([], specs, ap (λ n. (n, spec) ∷ specs) name_is),
                    rw (← name_is, ← value_is) made,
                  )
            ]
      ]

require_mapped_type_lem :
    (tables : Dict TableMapping) (name path : String) (table : TableMapping)
    → require_mapped_type tables name path ≡ ok table
    → lookup name tables ≡ some table
unfolding require_mapped_type
require_mapped_type_lem tables name path table h = elim (Option-cases (lookup name tables)) [
  | inl absent ↦ cc (rw (absent, require_mapped_type) at h)
  | inr (t, found) ↦ found ∙ ap some (ok_inj t table (rw (found, require_mapped_type) at h))
]

-- What a resolved query is made of.
pub resolve_query_lem :
    (u : Unicode) (tables : Dict TableMapping) (op_name : String) (spec : QuerySpec)
    (q : ResolvedQuery)
    → resolve_query u tables op_name spec ≡ ok q
    → (table : TableMapping) × (w : Where) × (lookup spec.type_name tables ≡ some table)
      × (rewrite_where u spec.where_text table.columns ("queries." ++ (op_name ++ ".where")) ≡ ok w)
      × (q.columns ≡ table.columns)
      × (q.table ≡ table.table)
      × (q.where_sql ≡ w.where_sql)
      × (q.where_args ≡ w.where_args)
unfolding resolve_query
resolve_query_lem u tables op_name spec q h =
    let (table, mapped_to, h') = >>=-eq-ok (require_mapped_type tables spec.type_name _) _ h in
    let (w, rewritten, done) = >>=-eq-ok (rewrite_where u spec.where_text table.columns _) _ h' in
    let e = ok_inj _ q done in
    (
      table,
      w,
      require_mapped_type_lem tables spec.type_name _ table mapped_to,
      rewritten,
      sym (ap ResolvedQuery.columns e),
      sym (ap ResolvedQuery.table e),
      sym (ap ResolvedQuery.where_sql e),
      sym (ap ResolvedQuery.where_args e),
    )

-- The resolved query of a spec: its table's names, and the spec's where text rewritten for it.
abbrev pub IsQueryOf : Unicode → Dict TableMapping → String → QuerySpec → ResolvedQuery → Type 0
IsQueryOf u tables op_name spec q =
    (table : TableMapping) × (w : Where) × (lookup spec.type_name tables ≡ some table)
    × (rewrite_where u spec.where_text table.columns ("queries." ++ (op_name ++ ".where")) ≡ ok w)
    × (q ≡ record {
      name = op_name;
      type_name = spec.type_name;
      table = table.table;
      columns = table.columns;
      primary_key = table.primary_key;
      multiplicity = spec.multiplicity;
      where_sql = w.where_sql;
      where_args = w.where_args;
    })

pub resolve_query-IsQueryOf :
    (u : Unicode) (tables : Dict TableMapping) (op_name : String) (spec : QuerySpec)
    (q : ResolvedQuery)
    → resolve_query u tables op_name spec ≡ ok q
    → IsQueryOf u tables op_name spec q
unfolding resolve_query
resolve_query-IsQueryOf u tables op_name spec q h =
    let (table, mapped_to, h') = >>=-eq-ok (require_mapped_type tables spec.type_name _) _ h in
    let (w, rewritten, done) = >>=-eq-ok (rewrite_where u spec.where_text table.columns _) _ h' in
    (
      table,
      w,
      require_mapped_type_lem tables spec.type_name _ table mapped_to,
      rewritten,
      sym (ok_inj _ q done),
    )

-- The resolved mutation of a spec: its table's names, the spec's set values rewritten to columns, its
-- where text rewritten, and what it invalidates.
abbrev pub IsMutationOf :
    Unicode → Dict TableMapping → String → MutationSpec → ResolvedMutation → Type 0
IsMutationOf u tables op_name spec mut =
    (table : TableMapping) × (set_columns : _) × (w : Where) × (lookup spec.type_name tables
      ≡ some table)
    × (require_set_for_kind spec op_name ≡ ok tt)
    × (rewrite_set spec.set_values table.columns ("mutations." ++ (op_name ++ ".set"))
        ≡ ok set_columns)
    × (rewrite_where u spec.where_text table.columns ("mutations." ++ (op_name ++ ".where")) ≡ ok w)
    × (mut ≡ record {
      name = op_name;
      type_name = spec.type_name;
      table = table.table;
      columns = table.columns;
      primary_key = table.primary_key;
      kind = spec.kind;
      set_columns = set_columns;
      where_sql = w.where_sql;
      where_args = w.where_args;
      invalidates = spec.invalidates;
    })

-- What a resolved mutation is made of.
pub resolve_mutation_lem :
    (u : Unicode) (tables : Dict TableMapping) (op_name : String) (spec : MutationSpec)
    (mut : ResolvedMutation)
    → resolve_mutation u tables op_name spec ≡ ok mut
    → IsMutationOf u tables op_name spec mut
unfolding resolve_mutation
resolve_mutation_lem u tables op_name spec mut h =
    let (table, mapped_to, h1) = >>=-eq-ok (require_mapped_type tables spec.type_name _) _ h in
    let (checked, passed, h2) = >>=-eq-ok (require_set_for_kind spec op_name) _ h1 in
    let (set_columns, set_done, h3) =
      >>=-eq-ok (rewrite_set spec.set_values table.columns _) _ h2 in
    let (w, rewritten, done) = >>=-eq-ok (rewrite_where u spec.where_text table.columns _) _ h3 in
    (
      table,
      set_columns,
      w,
      require_mapped_type_lem tables spec.type_name _ table mapped_to,
      passed,
      set_done,
      rewritten,
      sym (ok_inj _ mut done),
    )
