-- ===== src/Graphql/Server/Wiring.antt =====
-- framework/graphql/server.py: `build_graphql_app`: the resolvers that it sets, over the request
-- counters, the cache's state and the database's, and the schema made of them, which is ariadne's.
pub mod Served
pub mod Total
use hse_graduate_qualificati.Base.{ℕ, String, Bool, true, false, Option, none, some, List, [], ◌∷◌}
use hse_graduate_qualificati.Base.Dict.{Dict, lookup, insert}
use hse_graduate_qualificati.Base.Exec.{Result, ok, raise, Exec, ◌>>=◌, ◌>>◌}
use hse_graduate_qualificati.Base.Unicode.{Unicode}
use hse_graduate_qualificati.Cache.Backend.{CacheBackend}
use hse_graduate_qualificati.Cache.Interceptor.{Codec, Wrap, wrapped}
use hse_graduate_qualificati.Dsl.Registry.{ResolvedQuery, ResolvedMutation, OperationRegistry}
use hse_graduate_qualificati.Dsl.Value.{Args}
use hse_graduate_qualificati.Graphql.Server.{
  CacheContext, cache_contexts, pick_invalidator_backend, wrap_mutation_with_invalidator,
  wrap_with_counters, Answer,
}
use hse_graduate_qualificati.Graphql.Server.Resolvers.{Database, query_resolver, mutation_resolver}
use hse_graduate_qualificati.Stats.{RequestCounters}

-- What stands around the resolvers: the texts' database, `json`, the hash, asyncpg, the times of a
-- call's first and second look at the clock, and ariadne's `make_executable_schema`, which gets the
-- schema's text and the names of the query and the mutation fields, and may raise.
pub record Surroundings (D : Type 0) : Type 0 where
  pub unicode : Unicode
  pub codec : Codec Answer
  pub hexdigest : String → String
  pub database : Database D
  pub now : ℕ
  pub later : ℕ
  pub make_executable_schema : String → List String → List String → Result (Unit {0})

-- A resolver that works on the database alone, where the cache's state stands beside.
unfoldable pub beside : {S D A : Type 0} → (Args → Exec D A) → Args → Exec (S × D) A
beside inner args (s, d) = let (r, d') = inner args d in (r, (s, d'))

-- A resolver that is not counted leaves the counters.
unfoldable pub uncounted : {S A : Type 0} → (Args → Exec S A) → Args → Exec (RequestCounters × S) A
uncounted inner args (c, s) = let (r, s') = inner args s in (r, (c, s'))

-- what `set_field` gets
abbrev pub Resolver : Type 0 → Type 0 → Type 0
Resolver S D = Args → Exec (RequestCounters × (S × D)) Answer

-- the fields that are set
pub record Fields (S D : Type 0) : Type 0 where
  pub query_type : Dict (Resolver S D)
  pub mutation_type : Dict (Resolver S D)

-- the names of a type's fields, in the order in which they were set
unfoldable pub field_names {ℓ} : {V : Type ℓ} → Dict V → List String
field_names [] = []
field_names ((name, field) ∷ fields) = name ∷ field_names fields

module _ {S D : Type 0} (around : Surroundings D) where
  -- `if request_counters is not None`
  unfoldable pub counted_if : Bool → String → (Args → Exec (S × D) Answer) → Resolver S D
  unfolding wrap_with_counters uncounted
  counted_if true name inner = wrap_with_counters name inner
  counted_if false name inner = uncounted inner

  abbrev pub wrap_of : ResolvedQuery → CacheContext (CacheBackend S) → Wrap
  wrap_of q ctx = record {
    query = q;
    profile_name = ctx.profile_name;
    profile = ctx.profile;
    rule_name = ctx.rule_name;
    tag_templates = ctx.tag_templates;
  }

  -- the query's resolver, wrapped with the interceptor when its operation is in `op_to_cache_ctx`
  unfoldable pub cached_query :
      ResolvedQuery → Option (CacheContext (CacheBackend S)) → Args → Exec (S × D) Answer
  unfolding beside query_resolver wrapped
  cached_query q none = beside (query_resolver around.database around.unicode q)
  cached_query q (some ctx) =
      wrapped ctx.backend around.codec around.hexdigest around.now around.later (wrap_of q ctx)
        (query_resolver around.database around.unicode q)

  -- the loop over the queries
  unfoldable pub query_fields :
      Bool → Dict (CacheContext (CacheBackend S)) → Dict ResolvedQuery → Dict (Resolver S D)
  unfolding counted_if cached_query
  query_fields counted ctxs [] = []
  query_fields counted ctxs ((name, q) ∷ queries) =
      (name, counted_if counted name (cached_query q (lookup name ctxs)))
      ∷ query_fields counted ctxs queries

  -- the mutation's resolver, with the invalidator behind it when there are backends and the mutation
  -- has `invalidates`
  unfoldable pub invalidating :
      OperationRegistry
      → Option (Dict (CacheBackend S))
      → ResolvedMutation
      → Result (Args → Exec (S × D) Answer)
  unfolding beside mutation_resolver pick_invalidator_backend wrap_mutation_with_invalidator
  invalidating registry none m = ok (beside (mutation_resolver around.database around.unicode m))
  invalidating registry (some backends) m = elim m.invalidates [
    | none ↦ ok (beside (mutation_resolver around.database around.unicode m))
    | some spec ↦ pick_invalidator_backend m registry backends >>= λ backend. ok (
        wrap_mutation_with_invalidator backend around.now m
          (mutation_resolver around.database around.unicode m))
  ]

  -- the loop over the mutations
  unfoldable pub mutation_fields :
      Bool
      → OperationRegistry
      → Option (Dict (CacheBackend S))
      → Dict ResolvedMutation
      → Result (Dict (Resolver S D))
  unfolding invalidating counted_if
  mutation_fields counted registry backends [] = ok []
  mutation_fields counted registry backends ((name, m) ∷ mutations) =
      invalidating registry backends m >>= λ inner.
      mutation_fields counted registry backends mutations >>= λ fields.
      ok ((name, counted_if counted name inner) ∷ fields)

  -- `op_to_cache_ctx`
  unfoldable pub op_to_cache_ctx :
      OperationRegistry
      → Option (Dict (CacheBackend S))
      → Result (Dict (CacheContext (CacheBackend S)))
  unfolding cache_contexts
  op_to_cache_ctx registry none = ok []
  op_to_cache_ctx registry (some backends) =
      cache_contexts registry.cache_profiles backends registry.cache_rules []

  unfoldable pub build_graphql_app :
      Bool → String → OperationRegistry → Option (Dict (CacheBackend S)) → Result (Fields S D)
  unfolding op_to_cache_ctx query_fields mutation_fields field_names
  build_graphql_app counted sdl registry backends = op_to_cache_ctx registry backends >>= λ ctxs.
      mutation_fields counted registry backends registry.mutations >>= λ mutations.
      let queries = query_fields counted ctxs registry.queries in
      around.make_executable_schema sdl (field_names queries) (field_names mutations)
      >> ok (record { query_type = queries; mutation_type = mutations })
