-- ===== src/Graphql/Server/Wiring/Total.antt =====
-- framework/graphql/server.py: `build_graphql_app` comes back when ariadne makes the schema.
use hse_graduate_qualificati.Base.{
  String, ◌≡◌, refl, sym, ap, ◌∙◌, Bool, true, false, ◌==◌, ◌||◌, some, List, [], ◌∷◌, All,
  Bool-cases, Option, Option-cases, inl, inr, eq_refl, arith,
}
use hse_graduate_qualificati.Base.Dict.{Dict, lookup, has_key}
use hse_graduate_qualificati.Base.Exec.{ok, ok_inj, >>=-eq-ok, ◌>>◌, Exec, >>=-total}
use hse_graduate_qualificati.Base.Items.{get_item, get_item-ok}
use hse_graduate_qualificati.Base.Sorted.{before, insert_sorted, sort_items}
use hse_graduate_qualificati.Cache.Backend.{CacheBackend}
use hse_graduate_qualificati.Dsl.Loader.Accepted.{SpecIsConsistent, IsConsistent}
use hse_graduate_qualificati.Dsl.Loader.Checks.{is_falsy, check_rule_profiles}
use hse_graduate_qualificati.Dsl.Loader.Operations.{IsDistinct, all_operations}
use hse_graduate_qualificati.Dsl.Registry.{ResolvedQuery, ResolvedMutation, OperationRegistry}
use hse_graduate_qualificati.Dsl.Schema.{
  CacheRule, CacheProfile, InvalidatesSpec, Strategy, ttl, operation, tag, or_empty,
}
use hse_graduate_qualificati.Dsl.Value.{Args}
use hse_graduate_qualificati.Graphql.Server.{
  CacheContext, first_backend, rule_backend, pick_by_spec, pick_invalidator_backend,
  wrap_mutation_with_invalidator, Answer,
}
use hse_graduate_qualificati.Graphql.Server.Contexts.{cache_contexts_lem}
use hse_graduate_qualificati.Graphql.Server.Resolvers.{mutation_resolver}
use hse_graduate_qualificati.Graphql.Server.Wiring.{
  Surroundings, Resolver, Fields, beside, invalidating, query_fields, field_names, mutation_fields,
  op_to_cache_ctx, build_graphql_app,
}

module _ {B : Type 0} where
  has_key-insert_sorted :
      (j k : String) (v : B) (d : Dict B)
      → has_key j (insert_sorted k v d) ≡ (k == j || has_key j d)
  unfolding has_key insert_sorted
  has_key-insert_sorted j k v [] = refl
  has_key-insert_sorted j k v ((i, w) ∷ d) = elim (Bool-cases (before k i)) [
    | inl first ↦ rw first
    | inr later ↦ rw (later, has_key-insert_sorted j k v d) (ground arith)
  ]

  has_key-sort_items : (j : String) (d : Dict B) → has_key j (sort_items d) ≡ has_key j d
  unfolding has_key sort_items
  has_key-sort_items j [] = refl
  has_key-sort_items j ((k, v) ∷ d) =
      has_key-insert_sorted j k v (sort_items d) ∙ ap (λ b. k == j || b) (has_key-sort_items j d)

  head_has_key :
      (d sorted : Dict B) (k : String) (v : B) → sort_items d ≡ (k, v) ∷ sorted → has_key k d ≡ true
  unfolding has_key
  head_has_key d sorted k v e = sym (has_key-sort_items k d) ∙ ap (has_key k) e ∙ rw (eq_refl k)

  first_of :
      (backends : Dict B) (p : String) (sorted : Dict B)
      → has_key p sorted ≡ true
      → sort_items backends ≡ sorted
      → (b : B) × (first_backend backends ≡ ok b)
  unfolding has_key first_backend
  first_of backends p [] h e = cc h
  first_of backends p ((k, v) ∷ sorted) h e =
      let (b, found, _) = get_item-ok k backends (head_has_key backends sorted k v e) in
      (b, rw (e, first_backend) found)

  first_backend-total :
      (backends : Dict B) (p : String)
      → has_key p backends ≡ true
      → (b : B) × (first_backend backends ≡ ok b)
  first_backend-total backends p h =
      first_of backends p (sort_items backends) (has_key-sort_items p backends ∙ h) refl

  module _ (profiles : Dict CacheProfile) (backends : Dict B)
      (served : (p : String) → has_key p profiles ≡ true → has_key p backends ≡ true) where
    -- Each rule has a profile of these.
    abbrev pub RulesHaveProfiles : Dict CacheRule → Type 0
    RulesHaveProfiles rules =
        (name : String) (rule : CacheRule)
        → lookup name rules ≡ some rule
        → has_key rule.profile profiles ≡ true

    rule_backend-total :
        (rules : Dict CacheRule) (names : List String)
        → RulesHaveProfiles rules
        → is_falsy (some names) ≡ false
        → All (λ name. has_key name rules ≡ true) names
        → (b : B) × (rule_backend rules backends names ≡ ok b)
    unfolding rule_backend
    rule_backend-total rules [] profiled filled known = cc filled
    rule_backend-total rules (name ∷ names) profiled filled (here, known) =
        let (rule, found, there) = get_item-ok name rules here in
        let (b, at, _) =
          get_item-ok rule.profile backends (served rule.profile (profiled name rule there)) in
        >>=-total (get_item name rules) _ rule found (b, at)

    pick_by_spec-total :
        (rules : Dict CacheRule) (spec : InvalidatesSpec) (s : Strategy) (p : String)
        → RulesHaveProfiles rules
        → has_key p backends ≡ true
        → IsConsistent rules spec s
        → (b : B) × (pick_by_spec rules backends spec s ≡ ok b)
    unfolding pick_by_spec
    pick_by_spec-total rules spec ttl p profiled h fits = first_backend-total backends p h
    pick_by_spec-total rules spec tag p profiled h fits = first_backend-total backends p h
    pick_by_spec-total rules spec operation p profiled h (filled, _, known) =
        elim (Option-cases spec.rules) [
          | inl absent ↦ cc (rw (absent, is_falsy) at filled)
          | inr (names, there) ↦
              let known' : All (λ name. has_key name rules ≡ true) names =
                rw (there, or_empty) at known in
              let (b, picked) =
                rule_backend-total rules names profiled (rw there at filled) known' in
              (b, rw (there, or_empty) picked)
        ]

    pick_invalidator_backend-total :
        (m : ResolvedMutation) (registry : OperationRegistry) (p : String)
        → RulesHaveProfiles registry.cache_rules
        → has_key p backends ≡ true
        → SpecIsConsistent registry.cache_rules m.invalidates
        → (b : B) × (pick_invalidator_backend m registry backends ≡ ok b)
    unfolding pick_invalidator_backend
    pick_invalidator_backend-total m registry p profiled h fits =
        elim (Option-cases m.invalidates) [
          | inl absent ↦ rw absent (first_backend-total backends p h)
          | inr (spec, there) ↦ rw there (
              pick_by_spec-total registry.cache_rules spec spec.strategy p profiled h
                (rw (there, SpecIsConsistent) at fits))
        ]

rule-has_profile :
    (profiles : Dict CacheProfile) (rules : Dict CacheRule)
    → check_rule_profiles profiles rules ≡ ok tt
    → (name : String) (rule : CacheRule) → lookup name rules ≡ some rule
    → has_key rule.profile profiles ≡ true
unfolding check_rule_profiles lookup
rule-has_profile profiles [] h name rule found = cc found
rule-has_profile profiles ((n, r) ∷ rules) h name rule found =
    elim (Bool-cases (has_key r.profile profiles)) [
      | inr unknown ↦ cc (rw unknown at h)
      | inl known ↦ elim (Bool-cases (n == name)) [
        | inr differs ↦
            rule-has_profile profiles rules (rw known at h) name rule (rw differs at found)
        | inl same ↦
            let here : some r ≡ some rule = rw same at found in
            let e : r ≡ rule = cc here in rw (← e) known
      ]
    ]

module _ {S D : Type 0} (around : Surroundings D) where
  invalidating-total :
      (registry : OperationRegistry) (backends : Dict (CacheBackend S)) (p : String)
      (m : ResolvedMutation)
      → ((q : String) → has_key q registry.cache_profiles ≡ true → has_key q backends ≡ true)
      → check_rule_profiles registry.cache_profiles registry.cache_rules ≡ ok tt
      → has_key p backends ≡ true
      → SpecIsConsistent registry.cache_rules m.invalidates
      → (inner : Args → Exec (S × D) Answer) × (invalidating around registry (some backends) m
          ≡ ok inner)
  unfolding invalidating
  invalidating-total registry backends p m served refs h fits = elim (Option-cases m.invalidates) [
    | inl absent ↦
        (beside (mutation_resolver around.database around.unicode m), simp (absent, invalidating))
    | inr (spec, there) ↦
        let (b, picked) =
          pick_invalidator_backend-total registry.cache_profiles backends served m registry p
            (rule-has_profile registry.cache_profiles registry.cache_rules refs) h fits in
        let chained : CacheBackend S → Args → Exec (S × D) Answer = λ backend.
          wrap_mutation_with_invalidator backend around.now m
            (mutation_resolver around.database around.unicode m) in
        let (inner, made) =
          >>=-total (pick_invalidator_backend m registry backends) (λ backend. ok (chained backend))
            b picked (chained b, refl) in
        (inner, simp (there, invalidating) made)
  ]

  mutation_fields-total :
      (counted : Bool) (registry : OperationRegistry) (backends : Dict (CacheBackend S))
      (p : String)
      → (mutations : Dict ResolvedMutation)
      → ((q : String) → has_key q registry.cache_profiles ≡ true → has_key q backends ≡ true)
      → check_rule_profiles registry.cache_profiles registry.cache_rules ≡ ok tt
      → has_key p backends ≡ true
      → All
          (λ (m : String × ResolvedMutation). SpecIsConsistent registry.cache_rules m.1.invalidates)
          mutations
      → (fields : Dict (Resolver S D)) × (mutation_fields around counted registry
            (some backends)
            mutations
          ≡ ok fields)
  unfolding mutation_fields
  mutation_fields-total counted registry backends p [] served refs h fits = ([], refl)
  mutation_fields-total counted registry backends p ((name, m) ∷ mutations) served refs h
        (here, fits) =
      let (inner, first) = invalidating-total registry backends p m served refs h here in
      let (fields, rest) =
        mutation_fields-total counted registry backends p mutations served refs h fits in
      >>=-total (invalidating around registry (some backends) m) _ inner first (
        >>=-total (mutation_fields around counted registry (some backends) mutations) _ fields rest
          (_, refl))

  field_names-query_fields :
      (counted : Bool) (ctxs : Dict (CacheContext (CacheBackend S))) (queries : Dict ResolvedQuery)
      → field_names (query_fields around counted ctxs queries) ≡ field_names queries
  unfolding query_fields field_names
  field_names-query_fields counted ctxs [] = refl
  field_names-query_fields counted ctxs ((name, q) ∷ queries) =
      ap (λ names. name ∷ names) (field_names-query_fields counted ctxs queries)

  field_names-mutation_fields :
      (counted : Bool) (registry : OperationRegistry) (backends : Option (Dict (CacheBackend S)))
      (mutations : Dict ResolvedMutation)
      → (fields : Dict (Resolver S D))
      → mutation_fields around counted registry backends mutations ≡ ok fields
      → field_names fields ≡ field_names mutations
  unfolding mutation_fields field_names
  field_names-mutation_fields counted registry backends [] fields h =
      ap field_names (sym (ok_inj [] fields h))
  field_names-mutation_fields counted registry backends ((name, m) ∷ mutations) fields h =
      let (inner, _, h1) = >>=-eq-ok (invalidating around registry backends m) _ h in
      let (rest, made, h2) =
        >>=-eq-ok (mutation_fields around counted registry backends mutations) _ h1 in
      ap field_names (sym (ok_inj _ fields h2))
      ∙ ap (λ names. name ∷ names)
          (field_names-mutation_fields counted registry backends mutations rest made)

  -- For a registry that the loader's checks have passed, with a backend for each profile and one
  -- profile at least, `build_graphql_app` ends as ariadne's `make_executable_schema` does on the
  -- schema's text and the names of the registry's queries and mutations: no rule, profile or backend
  -- that it looks up is missing, and `sorted(backends_by_profile)[0]` is there. The fields it returns
  -- have the names of the registry's operations.
  pub build_graphql_app-total :
      (counted : Bool) (sdl : String) (registry : OperationRegistry)
      (backends : Dict (CacheBackend S)) (p : String)
      → ((q : String) → has_key q registry.cache_profiles ≡ true → has_key q backends ≡ true)
      → check_rule_profiles registry.cache_profiles registry.cache_rules ≡ ok tt
      → IsDistinct (all_operations registry.cache_rules)
      → has_key p backends ≡ true
      → All
          (λ (m : String × ResolvedMutation). SpecIsConsistent registry.cache_rules m.1.invalidates)
          registry.mutations
      → (fields : Fields S D) × (build_graphql_app around counted sdl registry (some backends) ≡ (
          around.make_executable_schema sdl
            (field_names registry.queries)
            (field_names registry.mutations)
          >> ok fields))
        × (field_names fields.query_type ≡ field_names registry.queries)
        × (field_names fields.mutation_type ≡ field_names registry.mutations)
  unfolding build_graphql_app op_to_cache_ctx
  build_graphql_app-total counted sdl registry backends p served refs distinct h fits =
      let (ctxs, made, _) =
        cache_contexts_lem registry.cache_profiles backends served registry.cache_rules [] refs
          distinct in
      let (mutations, set) =
        mutation_fields-total counted registry backends p registry.mutations served refs h fits in
      let query_names = field_names-query_fields counted ctxs registry.queries in
      let mutation_names =
        field_names-mutation_fields counted registry (some backends) registry.mutations mutations
          set in
      (
        record {
          query_type = query_fields around counted ctxs registry.queries;
          mutation_type = mutations;
        },
        rw (made, set, query_names, mutation_names) refl,
        query_names,
        mutation_names,
      )
