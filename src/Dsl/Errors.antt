-- ===== src/Dsl/Errors.antt =====
-- framework/dsl/errors.py: the loader's error codes. `DSLError` is the constructor `dsl_error` of
-- `Error`, in Base/Exec.antt.
pub data DslErrorCode : Type 0 where
  yaml_parse yaml_schema ref_profile ref_rule ref_operation : DslErrorCode
