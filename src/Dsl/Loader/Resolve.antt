-- ===== src/Dsl/Loader/Resolve.antt =====
-- framework/dsl/loader.py: `_resolve_queries` and `_resolve_mutations`.
pub mod Entries
use Prim.Native.String.{◌++◌}
use hse_graduate_qualificati.Base.{String, List, [], ◌∷◌}
use hse_graduate_qualificati.Base.Dict.{Dict, insert}
use hse_graduate_qualificati.Base.Exec.{Result, ok, ◌>>=◌, ◌>>◌}
use hse_graduate_qualificati.Base.Unicode.{Unicode}
use hse_graduate_qualificati.Dsl.Loader.Checks.{require_mapped_type, require_set_for_kind}
use hse_graduate_qualificati.Dsl.Loader.Where.{rewrite_where, rewrite_set}
use hse_graduate_qualificati.Dsl.Registry.{ResolvedQuery, ResolvedMutation}
use hse_graduate_qualificati.Dsl.Schema.{Document, TableMapping, QuerySpec, MutationSpec}

-- `for op_name, spec in specs.items(): resolved[op_name] = resolve(op_name, spec)`
unfoldable pub resolve_each {ℓ κ} :
    {S : Type ℓ} {R : Type κ} → (String → S → Result R) → Dict S → Dict R → Result (Dict R)
resolve_each resolve [] resolved = ok resolved
resolve_each resolve ((op_name, spec) ∷ specs) resolved =
    resolve op_name spec >>= λ r. resolve_each resolve specs (insert op_name r resolved)

-- The body of the loop of `_resolve_queries`. A copy of a dict that nothing changes is the dict.
unfoldable pub resolve_query :
    Unicode → Dict TableMapping → String → QuerySpec → Result ResolvedQuery
unfolding require_mapped_type rewrite_where
resolve_query u tables op_name spec = do
  table ← require_mapped_type tables spec.type_name ("queries." ++ (op_name ++ ".type"))
  w ← rewrite_where u spec.where_text table.columns ("queries." ++ (op_name ++ ".where"))
  ok (record {
    name = op_name;
    type_name = spec.type_name;
    table = table.table;
    columns = table.columns;
    primary_key = table.primary_key;
    multiplicity = spec.multiplicity;
    where_sql = w.where_sql;
    where_args = w.where_args;
  })

unfoldable pub resolve_queries : Unicode → Document → Result (Dict ResolvedQuery)
unfolding resolve_each resolve_query
resolve_queries u document =
    resolve_each (resolve_query u document.data_sources.postgres.tables) document.queries []

-- the body of the loop of `_resolve_mutations`
unfoldable pub resolve_mutation :
    Unicode → Dict TableMapping → String → MutationSpec → Result ResolvedMutation
unfolding require_mapped_type require_set_for_kind rewrite_set rewrite_where
resolve_mutation u tables op_name spec =
    require_mapped_type tables spec.type_name ("mutations." ++ (op_name ++ ".type")) >>= λ table.
    require_set_for_kind spec op_name
    >> (rewrite_set spec.set_values table.columns ("mutations." ++ (op_name ++ ".set"))
        >>= λ set_columns.
            rewrite_where u spec.where_text table.columns ("mutations." ++ (op_name ++ ".where"))
            >>= λ w. ok (record {
              name = op_name;
              type_name = spec.type_name;
              table = table.table;
              columns = table.columns;
              primary_key = table.primary_key;
              kind = spec.kind;
              set_columns = set_columns;
              where_sql = w.where_sql;
              where_args = w.where_args;
              invalidates = spec.invalidates;
            }))

unfoldable pub resolve_mutations : Unicode → Document → Result (Dict ResolvedMutation)
unfolding resolve_each resolve_mutation
resolve_mutations u document =
    resolve_each (resolve_mutation u document.data_sources.postgres.tables) document.mutations []
