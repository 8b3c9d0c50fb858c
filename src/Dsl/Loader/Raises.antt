-- ===== src/Dsl/Loader/Raises.antt =====
-- framework/dsl/loader.py: which errors leave `load`. What is said of a result.
pub mod Checks
pub mod Rewriting
pub mod Whole
use Prim.Native.String.{◌++◌}
use hse_graduate_qualificati.Dsl.Errors.{yaml_schema}
use hse_graduate_qualificati.Base.{
  ℕ, suc, String, ◌≡◌, refl, Bool, true, false, not, ◌&&◌, Option, none, some, List, [], ◌∷◌,
  contains, if◌then◌else◌, Bool-cases, Option-cases, inl, inr,
}
use hse_graduate_qualificati.Base.Dict.{Dict, lookup, insert, has_key}
use hse_graduate_qualificati.Base.Exec.{Error, Result, ok, raise, dsl_error, ◌>>=◌, ◌>>◌}
use hse_graduate_qualificati.Base.Sorted.{sort_items}
use hse_graduate_qualificati.Base.Unicode.{Unicode}
use hse_graduate_qualificati.Dsl.Loader.Checks.{
  check_operations, check_rule_operations, check_operation_refs, forbid, check_rule_names,
  check_strategy, check_invalidates, check_mutations, check_invalidate_strategy,
  check_rule_profiles, check_profile_refs, check_max_entries, check_profile_max_entries,
  require_mapped_type, require_set_for_kind, needs_set, is_none, is_falsy,
}
use hse_graduate_qualificati.Base.Outcome.{Outcome, returned, expected, other, convert}
use hse_graduate_qualificati.Dsl.Loader.Load.{
  GraphqlType, SdlType, object_type, other_type, SdlSchema, Library, read_yaml, validate_document,
  read_sdl, unwrap_type, check_fields, check_mapped_type, check_mapped_types,
  check_nested_mapped_types, table_names, load,
}
use hse_graduate_qualificati.Dsl.Loader.Resolve.{
  resolve_each, resolve_query, resolve_queries, resolve_mutation, resolve_mutations,
}
use hse_graduate_qualificati.Dsl.Loader.Tokens.{tokenize}
use hse_graduate_qualificati.Dsl.Loader.Where.{
  Kind, arg, operator, punct, keyword, numeric, string, identifier, unsupported, some_chars,
  classify, is_call, emit_symbol, emit, rewrite_tokens, rewrite_where, rewrite_items, rewrite_set,
}
use hse_graduate_qualificati.Dsl.Schema.{
  Document, QuerySpec, MutationSpec, TableMapping, InvalidatesSpec, CacheProfile, CacheRule,
  Strategy, ttl, operation, tag, is_in_memory, or_empty,
}

abbrev pub IsDslError : Error → Type 0
IsDslError (dsl_error code path message) = Unit
IsDslError _ = ⊥

-- It comes back, or raises a `DSLError`.
abbrev pub OnlyDsl {ℓ} : {A : Type ℓ} → Result A → Type 0
OnlyDsl (ok a) = Unit
OnlyDsl (raise e) = IsDslError e

pub OnlyDsl->>= {ℓ κ} :
    {A : Type ℓ} {B : Type κ} (r : Result A) (next : A → Result B)
    → OnlyDsl r
    → ((a : A) → OnlyDsl (next a))
    → OnlyDsl (r >>= next)
OnlyDsl->>= (ok a) next h later = later a
OnlyDsl->>= (raise e) next h later = h

pub OnlyDsl-if {ℓ} :
    {A : Type ℓ} (test : Bool) (r s : Result A)
    → OnlyDsl r
    → OnlyDsl s
    → OnlyDsl (if test then r else s)
OnlyDsl-if true r s h h' = h
OnlyDsl-if false r s h h' = h'

pub forbid-OnlyDsl : (test : Bool) (path message : String) → OnlyDsl (forbid test path message)
forbid-OnlyDsl true path message = tt
forbid-OnlyDsl false path message = tt
