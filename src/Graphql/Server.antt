-- ===== src/Graphql/Server.antt =====
-- framework/graphql/server.py: the tables and the wrappers that `build_graphql_app` builds around the
-- resolvers. `B` stands for the type of backend objects.
pub mod Contexts
pub mod Requests
pub mod Resolvers
pub mod Wiring
use hse_graduate_qualificati.Base.{
  ℕ, zero, suc, ◌+◌, String, Option, none, some, List, [], ◌∷◌, length,
}
use hse_graduate_qualificati.Base.Dict.{Dict, lookup, insert}
use hse_graduate_qualificati.Base.Exec.{
  Error, Result, ok, raise, Exec, traverse, key_error, library_error, multiplicity_violation, ◌>>=◌,
}
use hse_graduate_qualificati.Cache.Backend.{CacheBackend}
use hse_graduate_qualificati.Base.Sorted.{sort_items}
use hse_graduate_qualificati.Base.Items.{get_item}
use hse_graduate_qualificati.Cache.Invalidator.{after_mutation}
use hse_graduate_qualificati.Dsl.Registry.{ResolvedMutation, OperationRegistry}
use hse_graduate_qualificati.Dsl.Schema.{
  CacheProfile, CacheRule, InvalidatesSpec, Strategy, ttl, operation, tag, or_empty, Multiplicity,
  one, many,
}
use hse_graduate_qualificati.Dsl.Value.{Args, Value}
use hse_graduate_qualificati.Stats.{RequestCounters}

-- the tuple that `op_to_cache_ctx` holds for an operation
pub record CacheContext (B : Type 0) : Type 0 where
  pub backend : B
  pub profile_name : String
  pub profile : CacheProfile
  pub rule_name : String
  pub tag_templates : List String

-- `for op_name in rule.operations`
unfoldable pub add_operations {ℓ} : {V : Type ℓ} → List String → V → Dict V → Dict V
add_operations [] ctx ctxs = ctxs
add_operations (op ∷ ops) ctx ctxs = add_operations ops ctx (insert op ctx ctxs)

module _ {B : Type 0} where
  -- the loop that fills `op_to_cache_ctx`
  unfoldable pub cache_contexts :
      Dict CacheProfile
      → Dict B
      → Dict CacheRule
      → Dict (CacheContext B)
      → Result (Dict (CacheContext B))
  unfolding get_item add_operations
  cache_contexts profiles backends [] ctxs = ok ctxs
  cache_contexts profiles backends ((rule_name, rule) ∷ rules) ctxs = do
    profile ← get_item rule.profile profiles
    backend ← get_item rule.profile backends
    let ctx : CacheContext B = record {
      backend = backend;
      profile_name = rule.profile;
      profile = profile;
      rule_name = rule_name;
      tag_templates = or_empty rule.tags;
    }
    cache_contexts profiles backends rules (add_operations rule.operations ctx ctxs)

  -- `sorted(backends_by_profile)[0]`, and that profile's backend
  unfoldable pub first_backend : Dict B → Result B
  unfolding get_item
  first_backend backends = elim (sort_items backends) [
    | [] ↦ raise (library_error "list index out of range")
    | (first_profile, _) ∷ rest ↦ get_item first_profile backends
  ]

  -- the branch for `strategy == "operation"`
  unfoldable pub rule_backend : Dict CacheRule → Dict B → List String → Result B
  unfolding get_item first_backend
  rule_backend rules backends [] = first_backend backends
  rule_backend rules backends (name ∷ names) = do
    first_rule ← get_item name rules
    get_item first_rule.profile backends

  unfoldable pub pick_by_spec : Dict CacheRule → Dict B → InvalidatesSpec → Strategy → Result B
  unfolding rule_backend first_backend
  pick_by_spec rules backends spec operation = rule_backend rules backends (or_empty spec.rules)
  pick_by_spec rules backends spec ttl = first_backend backends
  pick_by_spec rules backends spec tag = first_backend backends

  unfoldable pub pick_invalidator_backend : ResolvedMutation → OperationRegistry → Dict B → Result B
  unfolding pick_by_spec first_backend
  pick_invalidator_backend m registry backends = elim m.invalidates [
    | none ↦ first_backend backends
    | some spec ↦ pick_by_spec registry.cache_rules backends spec spec.strategy
  ]

module _ {S D A : Type 0} (B : CacheBackend S) where
  -- `_wrap_mutation_with_invalidator`: nothing is invalidated unless the inner resolver has come
  -- back, and an error of the invalidator is the caller's.
  unfoldable pub wrap_mutation_with_invalidator :
      ℕ → ResolvedMutation → (Args → Exec D A) → Args → S × D → Result A × (S × D)
  wrap_mutation_with_invalidator now m inner args (s, d) =
      let (answer, d') = inner args d in
      elim answer [
        | raise e ↦ (raise e, (s, d'))
        | ok result ↦
            let (invalidated, s') = after_mutation B now m args s in
            elim invalidated [ raise e ↦ (raise e, (s', d')) | ok _ ↦ (ok result, (s', d')) ]
      ]

-- `d[key] = d.get(key, 0) + 1`
unfoldable pub bump : String → Dict ℕ → Dict ℕ
bump key d = elim (lookup key d) [ none ↦ insert key 1 d | some n ↦ insert key (n + 1) d ]

-- the `except` clauses: the code that an exception is counted under
abbrev pub error_code : Error → String
error_code (multiplicity_violation name count) = "multiplicity.violation"
error_code _ = "framework.internal_error"

module _ {S A : Type 0} where
  -- `_wrap_with_counters`, over the state of the request counters and the rest
  unfoldable pub wrap_with_counters :
      String → (Args → Exec S A) → Args → RequestCounters × S → Result A × (RequestCounters × S)
  unfolding bump
  wrap_with_counters op_name inner args (counters, s) =
      let counted = record counters {
        request_count_by_op = bump op_name counters.request_count_by_op;
      } in
      let (answer, s') = inner args s in
      elim answer [
        | ok result ↦ (ok result, (counted, s'))
        | raise e ↦ (raise e, (record counted { errors = bump (error_code e) counted.errors }, s'))
      ]

-- A row is a dict from column names to values; `row[pg_col]` of an unknown column raises.
abbrev pub Row : Type 0
Row = Dict Value

-- `_row_to_dict`
unfoldable pub row_to_dict : Row → Dict String → Result Row
unfolding get_item
row_to_dict row [] = ok []
row_to_dict row ((gql_field, pg_col) ∷ columns) = do
  value ← get_item pg_col row
  fields ← row_to_dict row columns
  ok ((gql_field, value) ∷ fields)

-- What a query resolver returns.
pub data Answer : Type 0 where
  null_row : Answer
  one_row : Row → Answer
  row_list : List Row → Answer

-- the rest of the query resolver, after `conn.fetch`
unfoldable pub answer_rows : String → Multiplicity → Dict String → List Row → Result Answer
unfolding row_to_dict
answer_rows name one columns [] = ok null_row
answer_rows name one columns (row ∷ []) = do fields ← row_to_dict row columns; ok (one_row fields)
answer_rows name one columns (row ∷ next ∷ rows) =
    raise (multiplicity_violation name (length (row ∷ next ∷ rows)))
answer_rows name many columns rows = do
  dicts ← traverse (λ row. row_to_dict row columns) rows
  ok (row_list dicts)
