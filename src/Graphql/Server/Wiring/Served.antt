-- ===== src/Graphql/Server/Wiring/Served.antt =====
-- framework/graphql/server.py: which fields `build_graphql_app` sets, and that it sets them.
use hse_graduate_qualificati.Base.{
  if◌then◌else◌, false, String, ◌≡◌, refl, sym, ap, ◌∙◌, Bool, true, ◌==◌, some, [], ◌∷◌, contains,
  Bool-cases, inl, inr, eq_iff,
}
use hse_graduate_qualificati.Base.Dict.{Dict, lookup, has_key}
use hse_graduate_qualificati.Base.Exec.{ok, Exec, ok_inj, >>=-eq-ok}
use hse_graduate_qualificati.Cache.Backend.{CacheBackend}
use hse_graduate_qualificati.Cache.Interceptor.{wrapped}
use hse_graduate_qualificati.Dsl.Value.{Args}
use hse_graduate_qualificati.Graphql.Server.Resolvers.{query_resolver}
use hse_graduate_qualificati.Dsl.Loader.Checks.{check_profile_refs}
use hse_graduate_qualificati.Dsl.Loader.Operations.{IsDistinct, all_operations}
use hse_graduate_qualificati.Dsl.Registry.{ResolvedQuery, OperationRegistry}
use hse_graduate_qualificati.Dsl.Schema.{Document, CacheRule, CacheProfile}
use hse_graduate_qualificati.Graphql.Server.{
  CacheContext, cache_contexts, wrap_with_counters, Answer,
}
use hse_graduate_qualificati.Graphql.Server.Contexts.{IsContextOf, cache_contexts-IsContextOf}
use hse_graduate_qualificati.Graphql.Server.Wiring.{
  Surroundings, Fields, uncounted, counted_if, cached_query, query_fields, mutation_fields,
  op_to_cache_ctx, build_graphql_app,
}

module _ {S D : Type 0} (around : Surroundings D) where
  query_fields-lookup :
      (counted : Bool) (ctxs : Dict (CacheContext (CacheBackend S))) (queries : Dict ResolvedQuery)
      → (op : String) (q : ResolvedQuery) → lookup op queries ≡ some q
      → lookup op (query_fields around counted ctxs queries)
        ≡ some (counted_if around counted op (cached_query around q (lookup op ctxs)))
  unfolding query_fields lookup
  query_fields-lookup counted ctxs [] op q h = cc h
  query_fields-lookup counted ctxs ((name, r) ∷ queries) op q h = elim (Bool-cases (name == op)) [
    | inr differs ↦ rw differs (query_fields-lookup counted ctxs queries op q (rw differs at h))
    | inl same ↦
        let here : some r ≡ some q = rw same at h in
        let r_is : r ≡ q = cc here in
        let name_is : name ≡ op = (eq_iff name op).0 same in
        rw same (
          ap (λ n. some (counted_if around counted n (cached_query around r (lookup n ctxs))))
            name_is
          ∙ ap (λ x. some (counted_if around counted op (cached_query around x (lookup op ctxs))))
              r_is)
  ]

  -- A query's resolver behind the interceptor, with what a context gives.
  abbrev pub behind_interceptor :
      ResolvedQuery → CacheContext (CacheBackend S) → Args → Exec (S × D) Answer
  behind_interceptor q ctx =
      wrapped ctx.backend around.codec around.hexdigest around.now around.later
        (record {
          query = q;
          profile_name = ctx.profile_name;
          profile = ctx.profile;
          rule_name = ctx.rule_name;
          tag_templates = ctx.tag_templates;
        })
        (query_resolver around.database around.unicode q)

  counted_if-cases :
      (counted : Bool) (op : String) (q : ResolvedQuery) (ctx : CacheContext (CacheBackend S))
      → counted_if around counted op (cached_query around q (some ctx)) ≡ (
          if counted
          then wrap_with_counters op (behind_interceptor q ctx)
          else uncounted (behind_interceptor q ctx))
  unfolding counted_if cached_query
  counted_if-cases true op q ctx = refl
  counted_if-cases false op q ctx = refl

  -- When `build_graphql_app` returns, with backends for all profiles, for a registry whose rules the
  -- loader's checks accept: the field of each query that a rule covers is the query's resolver behind
  -- the interceptor with that rule's name, tags and profile, and with the backend of that profile, and counted if the
  -- app has request counters.
  pub build_graphql_app-query :
      (document : Document) (registry : OperationRegistry) (counted : Bool) (sdl : String)
      → (backends : Dict (CacheBackend S)) (fields : Fields S D)
      → (name : String) (rule : CacheRule) (op : String) (q : ResolvedQuery)
      → registry.cache_rules ≡ document.cache_rules
      → registry.cache_profiles ≡ document.cache_profiles
      → ((p : String) → has_key p document.cache_profiles ≡ true → has_key p backends ≡ true)
      → check_profile_refs document ≡ ok tt
      → IsDistinct (all_operations document.cache_rules)
      → build_graphql_app around counted sdl registry (some backends) ≡ ok fields
      → lookup name document.cache_rules ≡ some rule
      → contains op rule.operations ≡ true
      → lookup op registry.queries ≡ some q
      → (ctx : CacheContext (CacheBackend S)) × (lookup op fields.query_type
          ≡ some (
              if counted
              then wrap_with_counters op (behind_interceptor q ctx)
              else uncounted (behind_interceptor q ctx)))
        × IsContextOf document.cache_profiles backends name rule ctx
  unfolding build_graphql_app op_to_cache_ctx
  build_graphql_app-query document registry counted sdl backends fields name rule op q rules
        profiles served refs distinct h has covers found =
      let (ctxs, ctx, made, at_op, is) =
        cache_contexts-IsContextOf document backends name rule op served refs distinct has covers in
      let (ctxs', made', h') = >>=-eq-ok (op_to_cache_ctx around registry (some backends)) _ h in
      let (ms, _, done) =
        >>=-eq-ok (mutation_fields around counted registry (some backends) registry.mutations) _
          h' in
      let (_, _, set) = >>=-eq-ok (around.make_executable_schema sdl _ _) _ done in
      let e = ok_inj _ fields set in
      let both : ok ctxs ≡ ok ctxs' =
        sym made
        ∙ ap (λ (r : Dict CacheRule). cache_contexts document.cache_profiles backends r [])
            (sym rules)
        ∙ ap (λ (p : Dict CacheProfile). cache_contexts p backends registry.cache_rules [])
            (sym profiles)
        ∙ made' in
      let same : ctxs ≡ ctxs' = ok_inj ctxs ctxs' both in
      let here : lookup op ctxs' ≡ some ctx = rw (← same) at_op in
      (
        ctx,
        ap (λ (f : Fields S D). lookup op f.query_type) (sym e)
            ∙ query_fields-lookup counted ctxs' registry.queries op q found
            ∙ ap (λ c. some (counted_if around counted op (cached_query around q c))) here
            ∙ ap some (counted_if-cases counted op q ctx),
        is,
      )
