-- ===== src/Dsl/Loader/Raises/Rewriting.antt =====
-- Neither does the resolution of the operations in framework/dsl/loader.py.
use Prim.Native.String.{◌++◌}
use hse_graduate_qualificati.Base.{
  String, not, ◌&&◌, Option, none, some, List, [], ◌∷◌, Bool-cases, Option-cases, inl, inr,
}
use hse_graduate_qualificati.Base.Dict.{Dict, lookup, insert}
use hse_graduate_qualificati.Base.Exec.{Result}
use hse_graduate_qualificati.Base.Sorted.{sort_items}
use hse_graduate_qualificati.Base.Unicode.{Unicode}
use hse_graduate_qualificati.Dsl.Loader.Checks.{
  require_mapped_type, require_set_for_kind, needs_set, is_none,
}
use hse_graduate_qualificati.Dsl.Loader.Resolve.{resolve_each, resolve_query, resolve_mutation}
use hse_graduate_qualificati.Dsl.Loader.Tokens.{tokenize}
use hse_graduate_qualificati.Dsl.Loader.Where.{
  Kind, arg, operator, punct, keyword, numeric, string, identifier, unsupported, some_chars,
  classify, is_call, emit_symbol, emit, rewrite_tokens, rewrite_where, rewrite_items, rewrite_set,
}
use hse_graduate_qualificati.Dsl.Schema.{QuerySpec, MutationSpec, TableMapping}
use hse_graduate_qualificati.Dsl.Loader.Raises.{OnlyDsl, OnlyDsl->>=, OnlyDsl-if, forbid-OnlyDsl}

pub require_set_for_kind-OnlyDsl :
    (spec : MutationSpec) (op_name : String) → OnlyDsl (require_set_for_kind spec op_name)
unfolding require_set_for_kind
require_set_for_kind-OnlyDsl spec op_name =
    elim (Bool-cases (needs_set spec.kind && is_none spec.set_values)) [
      | inl bad ↦ rw bad tt
      | inr fine ↦ rw fine (
          forbid-OnlyDsl (not (needs_set spec.kind) && not (is_none spec.set_values))
            ("mutations." ++ (op_name ++ ".set")) "kind=delete forbids 'set'")
    ]

pub require_mapped_type-OnlyDsl :
    (tables : Dict TableMapping) (name path : String)
    → OnlyDsl (require_mapped_type tables name path)
unfolding require_mapped_type
require_mapped_type-OnlyDsl tables name path = elim (Option-cases (lookup name tables)) [
  | inl absent ↦ rw (absent, OnlyDsl) tt
  | inr (table, found) ↦ rw (found, OnlyDsl) tt
]

module _ (u : Unicode) (columns : Dict String) (path : String) where
  pub emit_symbol-OnlyDsl :
      (prev : Option String) (t : String) → OnlyDsl (emit_symbol u path prev t)
  unfolding emit_symbol
  emit_symbol-OnlyDsl prev t = OnlyDsl-if (is_call u prev t) _ _ tt tt

  pub emit-OnlyDsl :
      (prev : Option String) (t : String) (k : Kind) → OnlyDsl (emit u columns path prev t k)
  unfolding emit
  emit-OnlyDsl prev t (arg name) = tt
  emit-OnlyDsl prev t operator = emit_symbol-OnlyDsl prev t
  emit-OnlyDsl prev t punct = emit_symbol-OnlyDsl prev t
  emit-OnlyDsl prev t keyword = tt
  emit-OnlyDsl prev t numeric = tt
  emit-OnlyDsl prev t string = tt
  emit-OnlyDsl prev t identifier = elim (Option-cases (lookup t columns)) [
    | inl absent ↦ rw (absent, OnlyDsl) tt
    | inr (column, found) ↦ rw (found, OnlyDsl) tt
  ]
  emit-OnlyDsl prev t unsupported = tt

  pub rewrite_tokens-OnlyDsl :
      (prev : Option String) (tokens : List String)
      → OnlyDsl (rewrite_tokens u columns path prev tokens)
  unfolding rewrite_tokens
  rewrite_tokens-OnlyDsl prev [] = tt
  rewrite_tokens-OnlyDsl prev (t ∷ tokens) = elim (Bool-cases (some_chars u.is_space t)) [
    | inl space ↦
        rw (space, OnlyDsl)
          (OnlyDsl->>= (rewrite_tokens u columns path prev tokens) _
            (rewrite_tokens-OnlyDsl prev tokens) (λ rest. tt))
    | inr word ↦
        rw (word, OnlyDsl)
          (OnlyDsl->>= (emit u columns path prev t (classify u t)) _
            (emit-OnlyDsl prev t (classify u t))
            (λ e.
              OnlyDsl->>= (rewrite_tokens u columns path (some t) tokens) _
                (rewrite_tokens-OnlyDsl (some t) tokens) (λ rest. tt)))
  ]

  pub rewrite_where-OnlyDsl : (o : Option String) → OnlyDsl (rewrite_where u o columns path)
  unfolding rewrite_where
  rewrite_where-OnlyDsl none = tt
  rewrite_where-OnlyDsl (some t) =
      OnlyDsl->>= (rewrite_tokens u columns path none (tokenize u t)) _
        (rewrite_tokens-OnlyDsl none (tokenize u t)) (λ e. tt)

pub rewrite_items-OnlyDsl :
    (columns : Dict String) (path : String) (done items : Dict String)
    → OnlyDsl (rewrite_items columns path done items)
unfolding rewrite_items
rewrite_items-OnlyDsl columns path done [] = tt
rewrite_items-OnlyDsl columns path done ((field, value) ∷ items) =
    elim (Option-cases (lookup field columns)) [
      | inl absent ↦ rw (absent, OnlyDsl) tt
      | inr (column, found) ↦
          rw (found, OnlyDsl) (rewrite_items-OnlyDsl columns path (insert column value done) items)
    ]

pub rewrite_set-OnlyDsl :
    (o : Option (Dict String)) (columns : Dict String) (path : String)
    → OnlyDsl (rewrite_set o columns path)
unfolding rewrite_set
rewrite_set-OnlyDsl none columns path = tt
rewrite_set-OnlyDsl (some values) columns path =
    OnlyDsl->>= (rewrite_items columns path [] (sort_items values)) _
      (rewrite_items-OnlyDsl columns path [] (sort_items values)) (λ d. tt)

pub resolve_each-OnlyDsl {ℓ κ} :
    {S : Type ℓ} {R : Type κ} (resolve : String → S → Result R)
    → ((name : String) (spec : S) → OnlyDsl (resolve name spec))
    → (specs : Dict S) (resolved : Dict R) → OnlyDsl (resolve_each resolve specs resolved)
unfolding resolve_each
resolve_each-OnlyDsl resolve h [] resolved = tt
resolve_each-OnlyDsl resolve h ((name, spec) ∷ specs) resolved =
    OnlyDsl->>= (resolve name spec) _ (h name spec)
      (λ r. resolve_each-OnlyDsl resolve h specs (insert name r resolved))

pub resolve_query-OnlyDsl :
    (u : Unicode) (tables : Dict TableMapping) (name : String) (spec : QuerySpec)
    → OnlyDsl (resolve_query u tables name spec)
unfolding resolve_query
resolve_query-OnlyDsl u tables name spec =
    OnlyDsl->>= (require_mapped_type tables spec.type_name ("queries." ++ (name ++ ".type"))) _
      (require_mapped_type-OnlyDsl tables spec.type_name _)
      (λ table.
        OnlyDsl->>=
          (rewrite_where u spec.where_text table.columns ("queries." ++ (name ++ ".where"))) _
          (rewrite_where-OnlyDsl u table.columns _ spec.where_text) (λ w. tt))

pub resolve_mutation-OnlyDsl :
    (u : Unicode) (tables : Dict TableMapping) (name : String) (spec : MutationSpec)
    → OnlyDsl (resolve_mutation u tables name spec)
unfolding resolve_mutation
resolve_mutation-OnlyDsl u tables name spec =
    OnlyDsl->>= (require_mapped_type tables spec.type_name ("mutations." ++ (name ++ ".type"))) _
      (require_mapped_type-OnlyDsl tables spec.type_name _)
      (λ table.
        OnlyDsl->>= (require_set_for_kind spec name) _ (require_set_for_kind-OnlyDsl spec name)
          (λ checked.
            OnlyDsl->>=
              (rewrite_set spec.set_values table.columns ("mutations." ++ (name ++ ".set"))) _
              (rewrite_set-OnlyDsl spec.set_values table.columns _)
              (λ columns.
                OnlyDsl->>=
                  (rewrite_where u spec.where_text table.columns
                    ("mutations." ++ (name ++ ".where")))
                  _ (rewrite_where-OnlyDsl u table.columns _ spec.where_text) (λ w. tt))))
