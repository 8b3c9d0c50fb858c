-- ===== src/Dsl/Loader/Checks.antt =====
-- framework/dsl/loader.py: steps 4a to 6 of `load`. A document is accepted, or the first fault that
-- is met is raised as a `DSLError`.
use Prim.Native.String.{◌++◌}
use hse_graduate_qualificati.Base.{
  ℕ, suc, String, Bool, true, false, not, ◌&&◌, Option, none, some, List, [], ◌∷◌, if◌then◌else◌,
}
use hse_graduate_qualificati.Base.Dict.{Dict, lookup, insert, has_key}
use hse_graduate_qualificati.Base.Exec.{Result, ok, raise, dsl_error, ◌>>=◌, ◌>>◌}
use hse_graduate_qualificati.Dsl.Errors.{yaml_schema, ref_profile, ref_rule, ref_operation}
use hse_graduate_qualificati.Dsl.Schema.{
  Document, QuerySpec, MutationSpec, TableMapping, MutationKind, update, delete, InvalidatesSpec,
  CacheProfile, CacheRule, Strategy, ttl, operation, tag, is_in_memory, or_empty,
}
use hse_graduate_qualificati.Dsl.Value.{show_nat}

-- `x is None`
abbrev pub is_none {ℓ} : {A : Type ℓ} → Option A → Bool
is_none none = true
is_none (some a) = false

-- `not xs`
abbrev pub is_falsy : Option (List String) → Bool
is_falsy none = true
is_falsy (some []) = true
is_falsy (some (x ∷ xs)) = false

unfoldable pub operation_path : String → ℕ → String
operation_path rule_name idx =
    "cacheRules." ++ (rule_name ++ (".operations[" ++ (show_nat idx ++ "]")))

-- the inner loop of `_check_operation_refs`, with `seen_operations`
unfoldable pub check_operations :
    Dict QuerySpec → String → ℕ → List String → Dict String → Result (Dict String)
unfolding operation_path
check_operations queries rule_name idx [] seen = ok seen
check_operations queries rule_name idx (op ∷ ops) seen =
    if has_key op queries
    then elim (lookup op seen) [
      | none ↦ check_operations queries rule_name (suc idx) ops (insert op rule_name seen)
      | some other ↦ raise (
          dsl_error ref_operation (operation_path rule_name idx)
            ("query '" ++ (op ++ ("' is already covered by cacheRule '" ++ (other ++ "'")))))
    ]
    else raise
        (dsl_error ref_operation (operation_path rule_name idx) ("unknown query '" ++ (op ++ "'")))

-- the outer loop
unfoldable pub check_rule_operations :
    Dict QuerySpec → Dict CacheRule → Dict String → Result (Unit {0})
check_rule_operations queries [] seen = ok tt
check_rule_operations queries ((name, rule) ∷ rules) seen = do
  seen ← check_operations queries name 0 rule.operations seen
  check_rule_operations queries rules seen

unfoldable pub check_operation_refs : Document → Result (Unit {0})
unfolding check_rule_operations
check_operation_refs document = check_rule_operations document.queries document.cache_rules []

-- `if test: raise DSLError(YAML_SCHEMA, path, message)`
abbrev pub forbid : Bool → String → String → Result (Unit {0})
forbid test path message = if test then raise (dsl_error yaml_schema path message) else ok tt

-- the loop `for idx, rule_name in enumerate(spec.rules)`
unfoldable pub check_rule_names : Dict CacheRule → String → ℕ → List String → Result (Unit {0})
check_rule_names rules op_name idx [] = ok tt
check_rule_names rules op_name idx (name ∷ names) =
    if has_key name rules
    then check_rule_names rules op_name (suc idx) names
    else raise (
        dsl_error ref_rule
          ("mutations." ++ (op_name ++ (".invalidates.rules[" ++ (show_nat idx ++ "]"))))
          ("unknown rule '" ++ (name ++ "'")))

-- the body of `_check_invalidate_strategy`'s loop, for a mutation that has `invalidates`
unfoldable pub check_strategy :
    Dict CacheRule → String → InvalidatesSpec → Strategy → Result (Unit {0})
unfolding check_rule_names
check_strategy rules op_name spec tag =
    let path = "mutations." ++ (op_name ++ ".invalidates") in
    forbid (is_falsy spec.tags) path "strategy=tag requires 'tags'"
    >> forbid (not (is_none spec.rules)) path "strategy=tag forbids 'rules'"
check_strategy rules op_name spec operation =
    let path = "mutations." ++ (op_name ++ ".invalidates") in
    forbid (is_falsy spec.rules) path "strategy=operation requires 'rules'"
    >> (forbid (not (is_none spec.tags)) path "strategy=operation forbids 'tags'"
        >> check_rule_names rules op_name 0 (or_empty spec.rules))
check_strategy rules op_name spec ttl =
    let path = "mutations." ++ (op_name ++ ".invalidates") in
    forbid (not (is_none spec.rules)) path "strategy=ttl forbids 'rules'"
    >> forbid (not (is_none spec.tags)) path "strategy=ttl forbids 'tags'"

unfoldable pub check_invalidates :
    Dict CacheRule → String → Option InvalidatesSpec → Result (Unit {0})
unfolding check_strategy
check_invalidates rules op_name none = ok tt
check_invalidates rules op_name (some spec) = check_strategy rules op_name spec spec.strategy

unfoldable pub check_mutations : Dict CacheRule → Dict MutationSpec → Result (Unit {0})
unfolding check_invalidates
check_mutations rules [] = ok tt
check_mutations rules ((op_name, mutation) ∷ mutations) =
    check_invalidates rules op_name mutation.invalidates >> check_mutations rules mutations

unfoldable pub check_invalidate_strategy : Document → Result (Unit {0})
unfolding check_mutations
check_invalidate_strategy document = check_mutations document.cache_rules document.mutations

unfoldable pub check_rule_profiles : Dict CacheProfile → Dict CacheRule → Result (Unit {0})
check_rule_profiles profiles [] = ok tt
check_rule_profiles profiles ((name, rule) ∷ rules) =
    if has_key rule.profile profiles
    then check_rule_profiles profiles rules
    else raise (
        dsl_error ref_profile ("cacheRules." ++ (name ++ ".profile"))
          ("unknown profile '" ++ (rule.profile ++ "'")))

unfoldable pub check_profile_refs : Document → Result (Unit {0})
unfolding check_rule_profiles
check_profile_refs document = check_rule_profiles document.cache_profiles document.cache_rules

unfoldable pub check_max_entries : Dict CacheProfile → Result (Unit {0})
check_max_entries [] = ok tt
check_max_entries ((name, profile) ∷ profiles) =
    if is_in_memory profile.backend && is_none profile.max_entries
    then raise (
        dsl_error yaml_schema ("cacheProfiles." ++ name)
          "max_entries is required for in_memory backend")
    else check_max_entries profiles

unfoldable pub check_profile_max_entries : Document → Result (Unit {0})
unfolding check_max_entries
check_profile_max_entries document = check_max_entries document.cache_profiles

unfoldable pub require_mapped_type : Dict TableMapping → String → String → Result TableMapping
require_mapped_type tables type_name path = elim (lookup type_name tables) [
  | none ↦
      raise
        (dsl_error yaml_schema path ("type '" ++ (type_name ++ "' has no postgres table mapping")))
  | some table ↦ ok table
]

abbrev pub kind_text : MutationKind → String
kind_text MutationKind.insert = "insert"
kind_text update = "update"
kind_text delete = "delete"

abbrev pub needs_set : MutationKind → Bool
needs_set MutationKind.insert = true
needs_set update = true
needs_set delete = false

unfoldable pub require_set_for_kind : MutationSpec → String → Result (Unit {0})
require_set_for_kind spec op_name =
    let path = "mutations." ++ (op_name ++ ".set") in
    forbid (needs_set spec.kind && is_none spec.set_values) path
      ("kind=" ++ (kind_text spec.kind ++ " requires 'set'"))
    >> forbid (not (needs_set spec.kind) && not (is_none spec.set_values)) path
        "kind=delete forbids 'set'"
