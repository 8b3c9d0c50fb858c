-- ===== src/Dsl/Loader/Load.antt =====
-- framework/dsl/loader.py: `load`. Files, YAML, pydantic and graphql-core are the fields of
-- `Library`; the loader sees what they return.
pub mod Accepted
use Prim.Native.String.{◌++◌}
use hse_graduate_qualificati.Base.{
  String, Bool, true, false, List, [], ◌∷◌, Option, none, some, contains, map,
}
use hse_graduate_qualificati.Base.Dict.{Dict}
use hse_graduate_qualificati.Base.Exec.{Error, Result, ok, raise, dsl_error, ◌>>=◌, ◌>>◌}
use hse_graduate_qualificati.Base.Outcome.{Outcome, convert}
use hse_graduate_qualificati.Base.Texts.{join}
use hse_graduate_qualificati.Base.Unicode.{Unicode}
use hse_graduate_qualificati.Dsl.Errors.{yaml_parse, yaml_schema, DslErrorCode}
use hse_graduate_qualificati.Dsl.Loader.Checks.{
  check_operation_refs, check_invalidate_strategy, check_profile_refs, check_profile_max_entries,
}
use hse_graduate_qualificati.Dsl.Loader.Resolve.{resolve_queries, resolve_mutations}
use hse_graduate_qualificati.Dsl.Registry.{OperationRegistry, ResolvedQuery, ResolvedMutation}
use hse_graduate_qualificati.Dsl.Schema.{Document, TableMapping}

-- graphql-core's types, as `_check_nested_mapped_types` reads them
pub data GraphqlType : Type 0 where
  named : String → GraphqlType
  non_null list_of : GraphqlType → GraphqlType

pub data SdlType : Type 0 where
  object_type : Dict GraphqlType → SdlType
  other_type : SdlType

-- `schema.get_type`
abbrev pub SdlSchema : Type 0
SdlSchema = String → Option SdlType

-- The first error of a `ValidationError`: its place and its message.
pub record Fault : Type 0 where
  pub loc : List String
  pub msg : String

-- What the loader calls. `str(exc)` is the text of an expected exception; `set_order` is the order
-- in which a set of these names is read.
pub record Library (P : Type 0) : Type 0 where
  pub unicode : Unicode
  pub read_text : String → Outcome String String
  pub safe_load : String → Outcome String P
  pub model_validate : P → Outcome Fault Document
  pub build_schema : String → Outcome String SdlSchema
  pub set_order : List String → List String

module _ {P : Type 0} (lib : Library P) where
  unfoldable pub read_yaml : String → Result P
  unfolding convert
  read_yaml yaml_path = do
    text ← convert (dsl_error yaml_parse yaml_path) (lib.read_text yaml_path)
    convert (dsl_error yaml_parse yaml_path) (lib.safe_load text)

  unfoldable pub validate_document : P → Result Document
  unfolding convert join
  validate_document parsed =
      convert (λ (first : Fault). dsl_error yaml_schema (join "." first.loc) first.msg)
        (lib.model_validate parsed)

  unfoldable pub read_sdl : String → Result SdlSchema
  unfolding convert
  read_sdl schema_path = do
    text ← convert (dsl_error yaml_schema schema_path) (lib.read_text schema_path)
    convert (dsl_error yaml_schema schema_path) (lib.build_schema text)

-- `_unwrap_type`, and the name of what it comes to
unfoldable pub unwrap_type : GraphqlType → String
unwrap_type (named name) = name
unwrap_type (non_null of_type) = unwrap_type of_type
unwrap_type (list_of of_type) = unwrap_type of_type

-- the inner loop of `_check_nested_mapped_types`
unfoldable pub check_fields : List String → String → Dict GraphqlType → Result (Unit {0})
unfolding unwrap_type
check_fields mapped_type_names type_name [] = ok tt
check_fields mapped_type_names type_name ((field_name, type) ∷ fields) =
    elim (contains (unwrap_type type) mapped_type_names) [
      | true ↦ raise (
          dsl_error yaml_schema ("dataSources.postgres.tables." ++ type_name) (
            "field '"
            ++ (field_name
                ++ ("' has nested mapped type '"
                    ++ (unwrap_type type ++ "'; ADR-036 requires scalar fields only")))))
      | false ↦ check_fields mapped_type_names type_name fields
    ]

-- the body of its outer loop
unfoldable pub check_mapped_type : SdlSchema → List String → String → Result (Unit {0})
unfolding check_fields
check_mapped_type sdl_schema mapped_type_names type_name =
    let refused = raise (
      dsl_error yaml_schema ("dataSources.postgres.tables." ++ type_name)
        ("type '" ++ (type_name ++ "' is not an object type in the SDL"))) in
    elim (sdl_schema type_name) [
      | none ↦ refused
      | some other_type ↦ refused
      | some (object_type fields) ↦ check_fields mapped_type_names type_name fields
    ]

unfoldable pub check_mapped_types : SdlSchema → List String → List String → Result (Unit {0})
unfolding check_mapped_type
check_mapped_types sdl_schema mapped_type_names [] = ok tt
check_mapped_types sdl_schema mapped_type_names (type_name ∷ names) =
    check_mapped_type sdl_schema mapped_type_names type_name
    >> check_mapped_types sdl_schema mapped_type_names names

abbrev pub table_names : Document → List String
table_names document =
    map (λ (item : String × TableMapping). item.0) document.data_sources.postgres.tables

unfoldable pub check_nested_mapped_types :
    (List String → List String) → Document → SdlSchema → Result (Unit {0})
unfolding check_mapped_types
check_nested_mapped_types set_order document sdl_schema =
    check_mapped_types sdl_schema (table_names document) (set_order (table_names document))

-- the end of `load`
abbrev pub registry_of : Document → Dict ResolvedQuery → Dict ResolvedMutation → OperationRegistry
registry_of document queries mutations = record {
  queries = queries;
  mutations = mutations;
  tables = document.data_sources.postgres.tables;
  cache_profiles = document.cache_profiles;
  cache_rules = document.cache_rules;
}

unfoldable pub load : {P : Type 0} → Library P → String → String → Result OperationRegistry
unfolding read_yaml validate_document read_sdl check_operation_refs check_invalidate_strategy
    check_profile_refs check_profile_max_entries check_nested_mapped_types resolve_queries
    resolve_mutations
load lib yaml_path schema_path = do
  parsed ← read_yaml lib yaml_path
  document ← validate_document lib parsed
  sdl_schema ← read_sdl lib schema_path
  check_operation_refs document
  check_invalidate_strategy document
  check_profile_refs document
  check_profile_max_entries document
  check_nested_mapped_types lib.set_order document sdl_schema
  queries ← resolve_queries lib.unicode document
  mutations ← resolve_mutations lib.unicode document
  ok (registry_of document queries mutations)
