-- ===== src/Cli/Served.antt =====
-- framework/cli.py: the app's wiring is complete for whatever the loader returns.
use mathlib.Core.Path.{subst}
use hse_graduate_qualificati.Base.{
  String, ◌≡◌, refl, sym, ap, ◌∙◌, Bool, true, ◌==◌, some, [], ◌∷◌, All, Bool-cases, inl, inr,
}
use hse_graduate_qualificati.Base.Dict.{Dict, insert, has_key, lookup_of_has_key, has_key_of_lookup}
use hse_graduate_qualificati.Base.Exec.{Result, ok, ok_inj, >>=-eq-ok, ◌>>◌}
use hse_graduate_qualificati.Cache.Backend.{CacheBackend}
use hse_graduate_qualificati.Cli.{make_backends}
use hse_graduate_qualificati.Cli.Backends.{HasDistinctKeys, make_backends-lookup}
use hse_graduate_qualificati.Dsl.Loader.Accepted.{SpecIsConsistent}
use hse_graduate_qualificati.Dsl.Loader.Checks.{check_rule_profiles}
use hse_graduate_qualificati.Dsl.Loader.Load.{Library, load}
use hse_graduate_qualificati.Dsl.Loader.Load.Accepted.{IsRegistryOf, load-IsRegistryOf}
use hse_graduate_qualificati.Dsl.Loader.Operations.{IsDistinct, all_operations}
use hse_graduate_qualificati.Dsl.Loader.Resolve.{resolve_each, resolve_mutation, resolve_mutations}
use hse_graduate_qualificati.Dsl.Loader.Resolve.Entries.{resolve_mutation_lem}
use hse_graduate_qualificati.Dsl.Registry.{ResolvedMutation, OperationRegistry}
use hse_graduate_qualificati.Dsl.Schema.{Document, CacheProfile, CacheRule, MutationSpec}
use hse_graduate_qualificati.Graphql.Server.Wiring.{
  Surroundings, Fields, field_names, build_graphql_app,
}
use hse_graduate_qualificati.Graphql.Server.Wiring.Total.{build_graphql_app-total}

-- The values of a dict have the property.
abbrev AllOf {ℓ} : {V : Type ℓ} → (V → Type 0) → Dict V → Type 0
AllOf P d = All (λ (item : String × _). P item.1) d

insert-AllOf {ℓ} :
    {V : Type ℓ} (P : V → Type 0) (k : String) (v : V) (d : Dict V)
    → P v
    → AllOf P d
    → AllOf P (insert k v d)
unfolding insert
insert-AllOf P k v [] p all = (p, tt)
insert-AllOf P k v ((j, w) ∷ d) p (here, all) = elim (Bool-cases (j == k)) [
  | inl same ↦ rw same (p, all)
  | inr differs ↦ rw differs (here, insert-AllOf P k v d p all)
]

resolve_each-AllOf :
    {S R : Type 0} (resolve : String → S → Result R) (Q : S → Type 0) (P : R → Type 0)
    → ((name : String) (spec : S) (r : R) → resolve name spec ≡ ok r → Q spec → P r)
    → (specs : Dict S) (resolved d : Dict R) → AllOf Q specs
    → AllOf P resolved
    → resolve_each resolve specs resolved ≡ ok d
    → AllOf P d
unfolding resolve_each
resolve_each-AllOf resolve Q P keeps [] resolved d specs_fine fine h =
    subst (AllOf P) (ok_inj resolved d h) fine
resolve_each-AllOf resolve Q P keeps ((name, spec) ∷ specs) resolved d (q, specs_fine) fine h =
    let (r, made, h') = >>=-eq-ok (resolve name spec) _ h in
    resolve_each-AllOf resolve Q P keeps specs (insert name r resolved) d specs_fine
      (insert-AllOf P name r resolved (keeps name spec r made q) fine) h'

check_rule_profiles-ok :
    (profiles : Dict CacheProfile) (rules : Dict CacheRule)
    → All (λ (r : String × CacheRule). has_key r.1.profile profiles ≡ true) rules
    → check_rule_profiles profiles rules ≡ ok tt
unfolding check_rule_profiles
check_rule_profiles-ok profiles [] all = refl
check_rule_profiles-ok profiles ((name, rule) ∷ rules) (known, all) =
    rw known (check_rule_profiles-ok profiles rules all)

consistent_after :
    {P : Type 0} (lib : Library P) (document : Document) (registry : OperationRegistry)
    → IsRegistryOf lib document registry
    → All
        (λ (m : String × MutationSpec). SpecIsConsistent document.cache_rules m.1.invalidates)
        document.mutations
    → All
        (λ (m : String × ResolvedMutation). SpecIsConsistent registry.cache_rules m.1.invalidates)
        registry.mutations
unfolding resolve_mutations
consistent_after lib document registry is consistent =
    resolve_each-AllOf (resolve_mutation lib.unicode document.data_sources.postgres.tables)
      (λ (spec : MutationSpec). SpecIsConsistent document.cache_rules spec.invalidates)
      (λ (m : ResolvedMutation). SpecIsConsistent registry.cache_rules m.invalidates)
      (λ name spec m made fits.
        let (_, _, _, _, _, _, _, m_is) =
          resolve_mutation_lem lib.unicode document.data_sources.postgres.tables name spec m made in
        subst (λ (r : Dict CacheRule). SpecIsConsistent r m.invalidates) (sym is.rules)
          (subst (SpecIsConsistent document.cache_rules)
            (sym (ap ResolvedMutation.invalidates m_is)) fits))
      document.mutations [] registry.mutations consistent tt is.all_mutations

module _ {B : Type 0} (redis_backend : B) (memory_backend : Dict CacheProfile → B) where
  backends-served :
      (profiles : Dict CacheProfile) (backends : Dict B)
      → HasDistinctKeys profiles
      → make_backends redis_backend memory_backend profiles ≡ some backends
      → (p : String) → has_key p profiles ≡ true
      → has_key p backends ≡ true
  backends-served profiles backends distinct made p there =
      let (prof, found) = lookup_of_has_key p profiles there in
      let (bs, made', at) =
        make_backends-lookup redis_backend memory_backend profiles p prof distinct found in
      let both : some bs ≡ some backends = sym made' ∙ made in
      let same : bs ≡ backends = cc both in has_key_of_lookup p _ backends (rw same at at)

-- Whatever registry `load` returns, with at least one cache profile: the lifespan's backends are made,
-- and `build_graphql_app` with them ends as ariadne's `make_executable_schema` does on the schema's
-- text and the names of the registry's queries and mutations. No lookup in the wiring can fail on a
-- document that the loader has let through. The profiles' names are distinct, as a dict's keys are.
pub load-build_graphql_app :
    {P S D : Type 0} (lib : Library P) (around : Surroundings D) (counted : Bool) (sdl : String)
    → (redis_backend : CacheBackend S) (memory_backend : Dict CacheProfile → CacheBackend S)
    → (yaml_path schema_path : String) (registry : OperationRegistry) (p : String)
    → load lib yaml_path schema_path ≡ ok registry
    → HasDistinctKeys registry.cache_profiles
    → has_key p registry.cache_profiles ≡ true
    → (backends : Dict (CacheBackend S)) × (make_backends redis_backend memory_backend
          registry.cache_profiles
        ≡ some backends)
      × (fields : Fields S D) × (build_graphql_app around counted sdl registry (some backends) ≡ (
          around.make_executable_schema sdl
            (field_names registry.queries)
            (field_names registry.mutations)
          >> ok fields))
load-build_graphql_app lib around counted sdl redis_backend memory_backend yaml_path schema_path
      registry p h distinct there =
    let (_, document, _, _, _, _, passes, is) =
      load-IsRegistryOf lib yaml_path schema_path registry h in
    let (prof, found) = lookup_of_has_key p registry.cache_profiles there in
    let (backends, made, _) =
      make_backends-lookup redis_backend memory_backend registry.cache_profiles p prof distinct
        found in
    let served =
      backends-served redis_backend memory_backend registry.cache_profiles backends distinct made in
    let refs : check_rule_profiles registry.cache_profiles registry.cache_rules ≡ ok tt =
      rw (is.rules, is.profiles)
        (check_rule_profiles-ok document.cache_profiles document.cache_rules passes.profiled) in
    let once : IsDistinct (all_operations registry.cache_rules) = rw is.rules passes.covered_once in
    let (fields, built, _, _) =
      build_graphql_app-total around counted sdl registry backends p served refs once
        (served p there) (consistent_after lib document registry is passes.consistent) in
    (backends, made, fields, built)
