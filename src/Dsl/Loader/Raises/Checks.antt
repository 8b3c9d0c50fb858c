-- ===== src/Dsl/Loader/Raises/Checks.antt =====
-- The checks of framework/dsl/loader.py raise nothing but a `DSLError`.
use Prim.Native.String.{◌++◌}
use hse_graduate_qualificati.Base.{
  ℕ, suc, String, Bool, true, false, not, ◌&&◌, List, [], ◌∷◌, contains, Bool-cases, Option-cases,
  inl, inr,
}
use hse_graduate_qualificati.Base.Dict.{Dict, lookup, insert, has_key}
use hse_graduate_qualificati.Base.Exec.{Result, ◌>>◌}
use hse_graduate_qualificati.Dsl.Loader.Checks.{
  check_operations, check_rule_operations, forbid, check_rule_names, check_strategy,
  check_invalidates, check_mutations, check_rule_profiles, check_max_entries, is_none, is_falsy,
}
use hse_graduate_qualificati.Dsl.Loader.Load.{
  GraphqlType, object_type, other_type, SdlSchema, unwrap_type, check_fields, check_mapped_type,
  check_mapped_types,
}
use hse_graduate_qualificati.Dsl.Schema.{
  QuerySpec, MutationSpec, InvalidatesSpec, CacheProfile, CacheRule, Strategy, ttl, operation, tag,
  is_in_memory, or_empty,
}
use hse_graduate_qualificati.Dsl.Loader.Raises.{OnlyDsl, OnlyDsl->>=, OnlyDsl-if, forbid-OnlyDsl}

pub check_operations-OnlyDsl :
    (queries : Dict QuerySpec) (rule : String) (idx : ℕ) (ops : List String) (seen : Dict String)
    → OnlyDsl (check_operations queries rule idx ops seen)
unfolding check_operations
check_operations-OnlyDsl queries rule idx [] seen = tt
check_operations-OnlyDsl queries rule idx (op ∷ ops) seen = elim (Option-cases (lookup op seen)) [
  | inl absent ↦ rw absent (
      OnlyDsl-if (has_key op queries) _ _
        (check_operations-OnlyDsl queries rule (suc idx) ops (insert op rule seen)) tt)
  | inr (covering, there) ↦ rw there (OnlyDsl-if (has_key op queries) _ _ tt tt)
]

pub check_rule_operations-OnlyDsl :
    (queries : Dict QuerySpec) (rules : Dict CacheRule) (seen : Dict String)
    → OnlyDsl (check_rule_operations queries rules seen)
unfolding check_rule_operations
check_rule_operations-OnlyDsl queries [] seen = tt
check_rule_operations-OnlyDsl queries ((name, rule) ∷ rules) seen =
    OnlyDsl->>= (check_operations queries name 0 rule.operations seen) _
      (check_operations-OnlyDsl queries name 0 rule.operations seen)
      (λ after. check_rule_operations-OnlyDsl queries rules after)

pub check_rule_names-OnlyDsl :
    (rules : Dict CacheRule) (op_name : String) (idx : ℕ) (names : List String)
    → OnlyDsl (check_rule_names rules op_name idx names)
unfolding check_rule_names
check_rule_names-OnlyDsl rules op_name idx [] = tt
check_rule_names-OnlyDsl rules op_name idx (name ∷ names) =
    OnlyDsl-if (has_key name rules) _ _ (check_rule_names-OnlyDsl rules op_name (suc idx) names) tt

forbid-then_OnlyDsl :
    (test : Bool) (path message : String) (rest : Result (Unit {0}))
    → OnlyDsl rest
    → OnlyDsl (forbid test path message >> rest)
forbid-then_OnlyDsl true path message rest h = tt
forbid-then_OnlyDsl false path message rest h = h

abbrev at_invalidates : String → String
at_invalidates op_name = "mutations." ++ (op_name ++ ".invalidates")

pub check_strategy-OnlyDsl :
    (rules : Dict CacheRule) (op_name : String) (spec : InvalidatesSpec) (s : Strategy)
    → OnlyDsl (check_strategy rules op_name spec s)
unfolding check_strategy
check_strategy-OnlyDsl rules op_name spec tag = elim (Bool-cases (is_falsy spec.tags)) [
  | inl bad ↦ rw bad tt
  | inr fine ↦ rw fine (
      forbid-OnlyDsl (not (is_none spec.rules)) (at_invalidates op_name)
        "strategy=tag forbids 'rules'")
]
check_strategy-OnlyDsl rules op_name spec ttl = elim (Bool-cases (not (is_none spec.rules))) [
  | inl bad ↦ rw bad tt
  | inr fine ↦ rw fine (
      forbid-OnlyDsl (not (is_none spec.tags)) (at_invalidates op_name)
        "strategy=ttl forbids 'tags'")
]
check_strategy-OnlyDsl rules op_name spec operation = elim (Bool-cases (is_falsy spec.rules)) [
  | inl bad ↦ rw bad tt
  | inr fine ↦ rw fine (
      forbid-then_OnlyDsl (not (is_none spec.tags)) (at_invalidates op_name)
        "strategy=operation forbids 'tags'" _
        (check_rule_names-OnlyDsl rules op_name 0 (or_empty spec.rules)))
]

pub check_mutations-OnlyDsl :
    (rules : Dict CacheRule) (mutations : Dict MutationSpec)
    → OnlyDsl (check_mutations rules mutations)
unfolding check_mutations check_invalidates
check_mutations-OnlyDsl rules [] = tt
check_mutations-OnlyDsl rules ((op_name, mutation) ∷ mutations) =
    let rest = check_mutations-OnlyDsl rules mutations in
    elim (Option-cases mutation.invalidates) [
      | inl absent ↦ rw absent rest
      | inr (spec, there) ↦ rw there (
          OnlyDsl->>= (check_strategy rules op_name spec spec.strategy) _
            (check_strategy-OnlyDsl rules op_name spec spec.strategy) (λ u. rest))
    ]

pub check_rule_profiles-OnlyDsl :
    (profiles : Dict CacheProfile) (rules : Dict CacheRule)
    → OnlyDsl (check_rule_profiles profiles rules)
unfolding check_rule_profiles
check_rule_profiles-OnlyDsl profiles [] = tt
check_rule_profiles-OnlyDsl profiles ((name, rule) ∷ rules) =
    OnlyDsl-if (has_key rule.profile profiles) _ _ (check_rule_profiles-OnlyDsl profiles rules) tt

pub check_max_entries-OnlyDsl :
    (profiles : Dict CacheProfile) → OnlyDsl (check_max_entries profiles)
unfolding check_max_entries
check_max_entries-OnlyDsl [] = tt
check_max_entries-OnlyDsl ((name, profile) ∷ profiles) =
    OnlyDsl-if (is_in_memory profile.backend && is_none profile.max_entries) _ _ tt
      (check_max_entries-OnlyDsl profiles)

pub check_fields-OnlyDsl :
    (mapped : List String) (name : String) (fields : Dict GraphqlType)
    → OnlyDsl (check_fields mapped name fields)
unfolding check_fields
check_fields-OnlyDsl mapped name [] = tt
check_fields-OnlyDsl mapped name ((field, type) ∷ fields) =
    elim (Bool-cases (contains (unwrap_type type) mapped)) [
      | inl nested ↦ rw (nested, OnlyDsl) tt
      | inr plain ↦ rw (plain, OnlyDsl) (check_fields-OnlyDsl mapped name fields)
    ]

pub check_mapped_type-OnlyDsl :
    (schema : SdlSchema) (mapped : List String) (name : String)
    → OnlyDsl (check_mapped_type schema mapped name)
unfolding check_mapped_type
check_mapped_type-OnlyDsl schema mapped name = elim (Option-cases (schema name)) [
  | inl absent ↦ rw (absent, OnlyDsl) tt
  | inr (other_type, found) ↦ rw (found, OnlyDsl) tt
  | inr (object_type fields, found) ↦ rw (found, OnlyDsl) (check_fields-OnlyDsl mapped name fields)
]

pub check_mapped_types-OnlyDsl :
    (schema : SdlSchema) (mapped names : List String)
    → OnlyDsl (check_mapped_types schema mapped names)
unfolding check_mapped_types
check_mapped_types-OnlyDsl schema mapped [] = tt
check_mapped_types-OnlyDsl schema mapped (name ∷ names) =
    OnlyDsl->>= (check_mapped_type schema mapped name) _
      (check_mapped_type-OnlyDsl schema mapped name)
      (λ u. check_mapped_types-OnlyDsl schema mapped names)
