-- ===== src/Dsl/Loader/Raises/Whole.antt =====
-- framework/dsl/loader.py: `load` raises a `DSLError`, or what a library raised and it does not catch.
use hse_graduate_qualificati.Dsl.Errors.{yaml_schema, yaml_parse}
use hse_graduate_qualificati.Base.{String, [], ◌≡◌, refl, ap, ◌⊎◌, inl, inr}
use hse_graduate_qualificati.Base.Exec.{Error, Result, ok, raise, ok_inj, dsl_error, ◌>>=◌, ◌>>◌}
use hse_graduate_qualificati.Dsl.Loader.Checks.{
  check_rule_operations, check_operation_refs, check_mutations, check_invalidate_strategy,
  check_rule_profiles, check_profile_refs, check_max_entries, check_profile_max_entries,
}
use hse_graduate_qualificati.Base.Outcome.{Outcome, returned, expected, other, convert}
use hse_graduate_qualificati.Dsl.Loader.Load.{
  SdlSchema, Library, read_yaml, validate_document, read_sdl, check_mapped_types,
  check_nested_mapped_types, table_names, load,
}
use hse_graduate_qualificati.Dsl.Loader.Resolve.{resolve_queries, resolve_mutations}
use hse_graduate_qualificati.Dsl.Schema.{Document}
use hse_graduate_qualificati.Dsl.Loader.Raises.{IsDslError, OnlyDsl, OnlyDsl->>=}
use hse_graduate_qualificati.Dsl.Loader.Raises.Checks.{
  check_rule_operations-OnlyDsl, check_mutations-OnlyDsl, check_rule_profiles-OnlyDsl,
  check_max_entries-OnlyDsl, check_mapped_types-OnlyDsl,
}
use hse_graduate_qualificati.Dsl.Loader.Raises.Rewriting.{
  resolve_each-OnlyDsl, resolve_query-OnlyDsl, resolve_mutation-OnlyDsl,
}

-- An exception of a library that the loader does not expect, from a call that it makes: of one of the
-- two files, or of what was read from it.
pub data IsForeign {P : Type 0} (lib : Library P) (yaml_path schema_path : String)
    : Error → Type 0 where
  yaml_file :
      (e : Error) → lib.read_text yaml_path ≡ other e → IsForeign lib yaml_path schema_path e
  yaml_text :
      (text : String) (e : Error)
      → lib.read_text yaml_path ≡ returned text
      → lib.safe_load text ≡ other e
      → IsForeign lib yaml_path schema_path e
  validation :
      (parsed : P) (e : Error)
      → read_yaml lib yaml_path ≡ ok parsed
      → lib.model_validate parsed ≡ other e
      → IsForeign lib yaml_path schema_path e
  sdl_file :
      (e : Error) → lib.read_text schema_path ≡ other e → IsForeign lib yaml_path schema_path e
  sdl_text :
      (text : String) (e : Error)
      → lib.read_text schema_path ≡ returned text
      → lib.build_schema text ≡ other e
      → IsForeign lib yaml_path schema_path e

-- It comes back, or raises such an error.
abbrev Raises {ℓ} : {A : Type ℓ} → (Error → Type 0) → Result A → Type 0
Raises Q (ok a) = Unit
Raises Q (raise e) = Q e

module _ (Q : Error → Type 0) where
  Raises->>= {ℓ κ} :
      {A : Type ℓ} {B : Type κ} (r : Result A) (next : A → Result B)
      → Raises Q r
      → ((a : A) → r ≡ ok a → Raises Q (next a))
      → Raises Q (r >>= next)
  Raises->>= (ok a) next h later = later a refl
  Raises->>= (raise e) next h later = h

  convert-Raises {κ ι} :
      {E : Type κ} {A : Type ι} (handler : E → Error) (o : Outcome E A)
      → ((e : E) → Q (handler e))
      → ((e : Error) → o ≡ other e → Q e)
      → Raises Q (convert handler o)
  unfolding convert
  convert-Raises handler (returned a) h through = tt
  convert-Raises handler (expected e) h through = h e
  convert-Raises handler (other e) h through = through e refl

  convert-returned {κ ι} :
      {E : Type κ} {A : Type ι} (handler : E → Error) (o : Outcome E A) (a : A)
      → convert handler o ≡ ok a
      → o ≡ returned a
  unfolding convert
  convert-returned handler (returned b) a e = ap returned (ok_inj b a e)
  convert-returned handler (expected x) a e = cc e
  convert-returned handler (other x) a e = cc e

  raised : {A : Type 0} (r : Result A) (e : Error) → Raises Q r → r ≡ raise e → Q e
  raised (ok a) e h is = cc is
  raised (raise x) e h is = let same : x ≡ e = cc is in rw (← same) h

OnlyDsl-Raises :
    {A : Type 0} (F : Error → Type 0) (r : Result A)
    → OnlyDsl r
    → Raises (λ e. IsDslError e ⊎ F e) r
OnlyDsl-Raises F (ok a) h = tt
OnlyDsl-Raises F (raise e) h = inl h

module _ {P : Type 0} (lib : Library P) where
  checks_OnlyDsl :
      {A : Type 0} (document : Document) (schema : SdlSchema) (next : Result A)
      → OnlyDsl next
      → OnlyDsl (
          check_operation_refs document
          >> (check_invalidate_strategy document
              >> (check_profile_refs document
                  >> (check_profile_max_entries document
                      >> (check_nested_mapped_types lib.set_order document schema >> next)))))
  unfolding check_operation_refs check_invalidate_strategy check_profile_refs
      check_profile_max_entries check_nested_mapped_types
  checks_OnlyDsl document schema next h =
      OnlyDsl->>= (check_rule_operations document.queries document.cache_rules []) _
        (check_rule_operations-OnlyDsl document.queries document.cache_rules [])
        (λ _.
          OnlyDsl->>= (check_mutations document.cache_rules document.mutations) _
            (check_mutations-OnlyDsl document.cache_rules document.mutations)
            (λ _.
              OnlyDsl->>= (check_rule_profiles document.cache_profiles document.cache_rules) _
                (check_rule_profiles-OnlyDsl document.cache_profiles document.cache_rules)
                (λ _.
                  OnlyDsl->>= (check_max_entries document.cache_profiles) _
                    (check_max_entries-OnlyDsl document.cache_profiles)
                    (λ _.
                      OnlyDsl->>=
                        (check_mapped_types schema (table_names document)
                          (lib.set_order (table_names document)))
                        _
                        (check_mapped_types-OnlyDsl schema (table_names document)
                          (lib.set_order (table_names document)))
                        (λ _. h)))))

module _ {P : Type 0} (lib : Library P) (yaml_path schema_path : String) where
  abbrev IsRaised : Error → Type 0
  IsRaised e = IsDslError e ⊎ IsForeign lib yaml_path schema_path e

  read_yaml-Raises : Raises IsRaised (read_yaml lib yaml_path)
  unfolding read_yaml
  read_yaml-Raises =
      Raises->>= IsRaised (convert (dsl_error yaml_parse yaml_path) (lib.read_text yaml_path)) _
        (convert-Raises IsRaised (dsl_error yaml_parse yaml_path) (lib.read_text yaml_path)
          (λ e. inl tt) (λ e is. inr (yaml_file e is)))
        (λ text read.
          convert-Raises IsRaised (dsl_error yaml_parse yaml_path) (lib.safe_load text)
            (λ e. inl tt)
            (λ e is. inr (yaml_text text e (convert-returned IsRaised _ _ text read) is)))

  read_sdl-Raises : Raises IsRaised (read_sdl lib schema_path)
  unfolding read_sdl
  read_sdl-Raises =
      Raises->>= IsRaised (convert (dsl_error yaml_schema schema_path) (lib.read_text schema_path))
        _
        (convert-Raises IsRaised (dsl_error yaml_schema schema_path) (lib.read_text schema_path)
          (λ e. inl tt) (λ e is. inr (sdl_file e is)))
        (λ text read.
          convert-Raises IsRaised (dsl_error yaml_schema schema_path) (lib.build_schema text)
            (λ e. inl tt)
            (λ e is. inr (sdl_text text e (convert-returned IsRaised _ _ text read) is)))

  validate_document-Raises :
      (parsed : P)
      → read_yaml lib yaml_path ≡ ok parsed
      → Raises IsRaised (validate_document lib parsed)
  unfolding validate_document
  validate_document-Raises parsed read =
      convert-Raises IsRaised _ (lib.model_validate parsed) (λ e. inl tt)
        (λ e is. inr (validation parsed e read is))

  load-Raises : Raises IsRaised (load lib yaml_path schema_path)
  unfolding load resolve_queries resolve_mutations
  load-Raises = Raises->>= IsRaised (read_yaml lib yaml_path) _ read_yaml-Raises (λ parsed read.
      Raises->>= IsRaised (validate_document lib parsed) _ (validate_document-Raises parsed read)
        (λ doc _. Raises->>= IsRaised (read_sdl lib schema_path) _ read_sdl-Raises (λ schema _.
          OnlyDsl-Raises (IsForeign lib yaml_path schema_path) _ (
            checks_OnlyDsl lib doc schema _ (
              OnlyDsl->>= (resolve_queries lib.unicode doc) _
                (resolve_each-OnlyDsl _
                  (resolve_query-OnlyDsl lib.unicode doc.data_sources.postgres.tables) doc.queries
                  [])
                (λ queries.
                  OnlyDsl->>= (resolve_mutations lib.unicode doc) _
                    (resolve_each-OnlyDsl _
                      (resolve_mutation-OnlyDsl lib.unicode doc.data_sources.postgres.tables)
                      doc.mutations [])
                    (λ mutations. tt)))))))

  -- What `load` raises is a `DSLError`, or an exception that reading one of the two files, parsing the
  -- text of either, or validating a document raised and that the loader's `except` clauses do not
  -- name. The checks and the rewriting themselves raise nothing but a `DSLError`, whatever the document
  -- holds.
  pub load_raises :
      (e : Error)
      → load lib yaml_path schema_path ≡ raise e
      → IsDslError e ⊎ IsForeign lib yaml_path schema_path e
  load_raises e h = raised IsRaised (load lib yaml_path schema_path) e load-Raises h
