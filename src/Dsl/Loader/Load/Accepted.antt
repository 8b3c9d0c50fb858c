-- ===== src/Dsl/Loader/Load/Accepted.antt =====
-- framework/dsl/loader.py: what `load` has checked of the document whose registry it returns.
use mathlib.Core.Path.{subst}
use hse_graduate_qualificati.Base.{
  String, ◌≡◌, refl, true, false, ◌&&◌, some, List, [], ◌∷◌, All, contains, Bool-cases,
  Option-cases, inl, inr,
}
use hse_graduate_qualificati.Base.Dict.{Dict, HasItem, lookup, has_key}
use hse_graduate_qualificati.Base.Exec.{ok, ok_inj, >>=-eq-ok}
use hse_graduate_qualificati.Dsl.Loader.Accepted.{SpecIsConsistent, check_invalidate_strategy_lem}
use hse_graduate_qualificati.Dsl.Loader.Checks.{
  check_operation_refs, check_invalidate_strategy, check_rule_profiles, check_profile_refs,
  check_max_entries, check_profile_max_entries, is_none,
}
use hse_graduate_qualificati.Dsl.Loader.Load.{
  GraphqlType, object_type, other_type, SdlSchema, Library, read_yaml, validate_document, read_sdl,
  unwrap_type, check_fields, check_mapped_type, check_mapped_types, table_names,
  check_nested_mapped_types, registry_of, load,
}
use hse_graduate_qualificati.Dsl.Loader.Operations.{
  IsDistinct, all_operations, check_operation_refs_lem,
}
use hse_graduate_qualificati.Dsl.Loader.Resolve.{
  resolve_query, resolve_queries, resolve_mutation, resolve_mutations,
}
use hse_graduate_qualificati.Dsl.Loader.Resolve.Entries.{
  IsQueryOf, IsMutationOf, resolve_query-IsQueryOf, resolve_mutation_lem, resolve_each-has_key,
  resolve_each-lookup,
}
use hse_graduate_qualificati.Dsl.Registry.{OperationRegistry, ResolvedQuery, ResolvedMutation}
use hse_graduate_qualificati.Dsl.Schema.{
  Document, QuerySpec, MutationSpec, CacheProfile, CacheRule, is_in_memory,
}

-- No field of a type, unwrapped, has one of these types.
abbrev pub IsFlat : List String → Dict GraphqlType → Type 0
IsFlat names fields =
    All (λ (f : String × GraphqlType). contains (unwrap_type f.1) names ≡ false) fields

-- The type is an object type of the schema, and flat.
abbrev pub IsFlatObject : SdlSchema → List String → String → Type 0
IsFlatObject schema names name =
    (fields : Dict GraphqlType) × (schema name ≡ some (object_type fields)) × IsFlat names fields

check_fields_lem :
    (names : List String) (name : String) (fields : Dict GraphqlType)
    → check_fields names name fields ≡ ok tt
    → IsFlat names fields
unfolding check_fields
check_fields_lem names name [] h = tt
check_fields_lem names name ((field, type) ∷ fields) h =
    elim (Bool-cases (contains (unwrap_type type) names)) [
      | inl nested ↦ cc (rw (nested, check_fields) at h)
      | inr plain ↦ (plain, check_fields_lem names name fields (rw (plain, check_fields) at h))
    ]

check_mapped_type_lem :
    (schema : SdlSchema) (names : List String) (name : String)
    → check_mapped_type schema names name ≡ ok tt
    → IsFlatObject schema names name
unfolding check_mapped_type
check_mapped_type_lem schema names name h = elim (Option-cases (schema name)) [
  | inl absent ↦ cc (rw (absent, check_mapped_type) at h)
  | inr (other_type, found) ↦ cc (rw (found, check_mapped_type) at h)
  | inr (object_type fields, found) ↦
      (fields, found, check_fields_lem names name fields (rw (found, check_mapped_type) at h))
]

check_mapped_types_lem :
    (schema : SdlSchema) (names order : List String)
    → check_mapped_types schema names order ≡ ok tt
    → All (IsFlatObject schema names) order
unfolding check_mapped_types
check_mapped_types_lem schema names [] h = tt
check_mapped_types_lem schema names (name ∷ order) h =
    let (u, first, rest) = >>=-eq-ok (check_mapped_type schema names name) _ h in
    (check_mapped_type_lem schema names name first, check_mapped_types_lem schema names order rest)

check_rule_profiles_lem :
    (profiles : Dict CacheProfile) (rules : Dict CacheRule)
    → check_rule_profiles profiles rules ≡ ok tt
    → All (λ (r : String × CacheRule). has_key r.1.profile profiles ≡ true) rules
unfolding check_rule_profiles
check_rule_profiles_lem profiles [] h = tt
check_rule_profiles_lem profiles ((name, rule) ∷ rules) h =
    elim (Bool-cases (has_key rule.profile profiles)) [
      | inl known ↦ (known, check_rule_profiles_lem profiles rules (rw known at h))
      | inr unknown ↦ cc (rw unknown at h)
    ]

check_max_entries_lem :
    (profiles : Dict CacheProfile)
    → check_max_entries profiles ≡ ok tt
    → All
        (λ (p : String × CacheProfile).
          (is_in_memory p.1.backend && is_none p.1.max_entries) ≡ false)
        profiles
unfolding check_max_entries
check_max_entries_lem [] h = tt
check_max_entries_lem ((name, profile) ∷ profiles) h =
    elim (Bool-cases (is_in_memory profile.backend && is_none profile.max_entries)) [
      | inl unbounded ↦ cc (rw unbounded at h)
      | inr bounded ↦ (bounded, check_max_entries_lem profiles (rw bounded at h))
    ]

-- What the checks say of a document and a schema.
pub record Passes (set_order : List String → List String) (document : Document) (schema : SdlSchema)
    : Type 0 where
  pub known : All (λ op. has_key op document.queries ≡ true) (all_operations document.cache_rules)
  pub covered_once : IsDistinct (all_operations document.cache_rules)
  pub consistent :
      All
        (λ (m : String × MutationSpec). SpecIsConsistent document.cache_rules m.1.invalidates)
        document.mutations
  pub profiled :
      All
        (λ (r : String × CacheRule). has_key r.1.profile document.cache_profiles ≡ true)
        document.cache_rules
  pub bounded :
      All
        (λ (p : String × CacheProfile).
          (is_in_memory p.1.backend && is_none p.1.max_entries) ≡ false)
        document.cache_profiles
  pub flat : All (IsFlatObject schema (table_names document)) (set_order (table_names document))

-- The registry is that of the document.
pub record IsRegistryOf {P : Type 0} (lib : Library P) (document : Document)
    (registry : OperationRegistry) : Type 0 where
  pub query_names : (op : String) → has_key op registry.queries ≡ has_key op document.queries
  pub mutation_names : (op : String) → has_key op registry.mutations ≡ has_key op document.mutations
  pub query :
      (op : String) (q : ResolvedQuery)
      → lookup op registry.queries ≡ some q
      → (spec : QuerySpec) × HasItem op spec document.queries
        × IsQueryOf lib.unicode document.data_sources.postgres.tables op spec q
  pub mutation :
      (op : String) (m : ResolvedMutation)
      → lookup op registry.mutations ≡ some m
      → (spec : MutationSpec) × HasItem op spec document.mutations
        × IsMutationOf lib.unicode document.data_sources.postgres.tables op spec m
  pub all_mutations : resolve_mutations lib.unicode document ≡ ok registry.mutations
  pub rules : registry.cache_rules ≡ document.cache_rules
  pub profiles : registry.cache_profiles ≡ document.cache_profiles

module _ {P : Type 0} (lib : Library P) where
  registry_of-IsRegistryOf :
      (document : Document) (queries : Dict ResolvedQuery) (mutations : Dict ResolvedMutation)
      → resolve_queries lib.unicode document ≡ ok queries
      → resolve_mutations lib.unicode document ≡ ok mutations
      → IsRegistryOf lib document (registry_of document queries mutations)
  unfolding resolve_queries resolve_mutations has_key lookup
  registry_of-IsRegistryOf document queries mutations h h' =
      let tables = document.data_sources.postgres.tables in
      record {
        query_names = λ op.
            resolve_each-has_key (resolve_query lib.unicode tables) document.queries [] queries op
              h;
        mutation_names = λ op.
            resolve_each-has_key (resolve_mutation lib.unicode tables) document.mutations []
              mutations op h';
        query = λ op q found.
            elim (resolve_each-lookup (resolve_query lib.unicode tables) document.queries [] queries
              op q h found) [
                | inl before ↦ cc before
                | inr (spec, item, made) ↦
                    (spec, item, resolve_query-IsQueryOf lib.unicode tables op spec q made)
              ];
        mutation = λ op m found.
            elim (resolve_each-lookup (resolve_mutation lib.unicode tables) document.mutations []
              mutations op m h' found) [
                | inl before ↦ cc before
                | inr (spec, item, made) ↦
                    (spec, item, resolve_mutation_lem lib.unicode tables op spec m made)
              ];
        all_mutations = h';
        rules = refl;
        profiles = refl;
      }

  -- When `load` returns a registry, the YAML file held a document that passes every check, with the
  -- schema of the SDL file: its rules name known queries, no query twice, and known profiles; each
  -- mutation's `invalidates` fits its strategy; each in-memory profile has `max_entries`; and each
  -- mapped type, in the order of the set, is an object type without a field of a mapped type. The
  -- registry has an operation exactly if the document has, and each query and each mutation is that of
  -- the document's spec under its name: the names of the spec's table, its where text and set values
  -- rewritten for that table's columns, and its multiplicity, or its kind and what it invalidates.
  pub load-IsRegistryOf :
      (yaml_path schema_path : String) (registry : OperationRegistry)
      → load lib yaml_path schema_path ≡ ok registry
      → (parsed : P) × (document : Document) × (schema : SdlSchema) × (read_yaml lib yaml_path
          ≡ ok parsed)
        × (validate_document lib parsed ≡ ok document)
        × (read_sdl lib schema_path ≡ ok schema)
        × Passes lib.set_order document schema
        × IsRegistryOf lib document registry
  unfolding load check_profile_refs check_profile_max_entries check_nested_mapped_types
  load-IsRegistryOf yaml_path schema_path registry h =
      let (parsed, is_parsed, h1) = >>=-eq-ok (read_yaml lib yaml_path) _ h in
      let (document, is_document, h2) = >>=-eq-ok (validate_document lib parsed) _ h1 in
      let (schema, is_schema, h3) = >>=-eq-ok (read_sdl lib schema_path) _ h2 in
      let (_, ops, h4) = >>=-eq-ok (check_operation_refs document) _ h3 in
      let (_, strategies, h5) = >>=-eq-ok (check_invalidate_strategy document) _ h4 in
      let (_, profiles, h6) = >>=-eq-ok (check_profile_refs document) _ h5 in
      let (_, entries, h7) = >>=-eq-ok (check_profile_max_entries document) _ h6 in
      let (_, nested, h8) =
        >>=-eq-ok (check_nested_mapped_types lib.set_order document schema) _ h7 in
      let (queries, qs, h9) = >>=-eq-ok (resolve_queries lib.unicode document) _ h8 in
      let (mutations, ms, done) = >>=-eq-ok (resolve_mutations lib.unicode document) _ h9 in
      let (known, once) = (check_operation_refs_lem document).0 ops in
      let e : registry_of document queries mutations ≡ registry = ok_inj _ registry done in
      (
        parsed,
        document,
        schema,
        is_parsed,
        is_document,
        is_schema,
        record {
          known = known;
          covered_once = once;
          consistent = (check_invalidate_strategy_lem document).0 strategies;
          profiled = check_rule_profiles_lem document.cache_profiles document.cache_rules profiles;
          bounded = check_max_entries_lem document.cache_profiles entries;
          flat = check_mapped_types_lem schema (table_names document) _ nested;
        },
        subst (IsRegistryOf lib document) e
            (registry_of-IsRegistryOf document queries mutations qs ms),
      )
