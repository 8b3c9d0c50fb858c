-- ===== src/Cli/Lifespan/Phases.antt =====
-- framework/cli.py: what the routes answer before, during and after the lifespan.
use hse_graduate_qualificati.Base.{String, ◌≡◌, some, List}
use hse_graduate_qualificati.Base.Dict.{Dict}
use hse_graduate_qualificati.Base.Exec.{ok, Exec}
use hse_graduate_qualificati.Cli.{AppState, stats, Message, graphql_dispatch}
use hse_graduate_qualificati.Cli.Lifespan.{
  Services, new_counters, new_request_counters, get_env, backends_with,
}
use hse_graduate_qualificati.Dsl.Registry.{OperationRegistry}
use hse_graduate_qualificati.Stats.{build_stats_payload}

module _ {W G L B C : Type 0} (services : Services W G L B C) (environ : Dict String) where
  -- The state that a boot leaves, and what the routes answer on it.
  pub record IsBooted (w : W) (state : AppState G L B C) : Type 0 where
    pub registry : OperationRegistry
    pub app : G
    pub pool : L
    pub sdl : String
    pub before_read : W
    pub before_app : W
    pub loaded :
        (services.load
          (get_env "DSL_PATH" "/app/examples/graphql-api-no-cache.yaml" environ)
          (get_env "SCHEMA_PATH" "/app/examples/schema.graphql" environ)
          w).0
        ≡ ok registry
    pub pooled : state.pool ≡ some pool
    pub read :
        (services.read_text
          (get_env "SCHEMA_PATH" "/app/examples/schema.graphql" environ)
          before_read).0
        ≡ ok sdl
    pub built :
        (services.build_graphql_app sdl registry pool
          (backends_with services registry.cache_profiles state.redis_client)
          new_request_counters
          before_app).0
        ≡ ok app
    pub stats_of : stats state ≡ build_stats_payload new_counters new_request_counters registry
    pub answers :
        (send : G → String → List Message) (scope : String)
        → graphql_dispatch send state scope ≡ send app scope
    pub backends :
        state.backends_by_profile
        ≡ backends_with services registry.cache_profiles state.redis_client
