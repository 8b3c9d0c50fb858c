-- ===== src/Cli/Lifespan.antt =====
-- framework/cli.py: `_lifespan`, before and after its `yield`.
pub mod Phases
use Prim.Native.String.{◌++◌}
use hse_graduate_qualificati.Base.{ℕ, String, Bool, true, false, Option, none, some, List, [], ◌∷◌}
use hse_graduate_qualificati.Base.Dict.{Dict, lookup}
use hse_graduate_qualificati.Base.Exec.{Result, ok, raise, runtime_error, Exec, after, ◌>>=◌}
use hse_graduate_qualificati.Base.Int.{ℤ}
use hse_graduate_qualificati.Base.Items.{get_item}
use hse_graduate_qualificati.Cache.Backend.{CacheCounters}
use hse_graduate_qualificati.Cli.{AppState, make_backends, redis_profiles_present}
use hse_graduate_qualificati.Dsl.Registry.{OperationRegistry}
use hse_graduate_qualificati.Dsl.Schema.{CacheProfile}
use hse_graduate_qualificati.Stats.{RequestCounters}

-- `os.environ.get(name, default)`
unfoldable pub get_env : String → String → Dict String → String
get_env name default environ = elim (lookup name environ) [ none ↦ default | some v ↦ v ]

-- What the lifespan calls. `W` is the world that the pool and the Redis client live in; a pool that
-- could not be made is `none`.
pub record Services (W G L B C : Type 0) : Type 0 where
  -- `load(dsl_path, schema_path)` and `schema_path.read_text()`
  pub load : String → String → Exec W OperationRegistry
  pub read_text : String → Exec W String
  -- `int` of a text
  pub parse_int : String → Result ℤ
  -- `asyncpg.create_pool` of the DSN and the two sizes
  pub create_pool : String → ℤ → ℤ → Exec W (Option L)
  -- `redis.asyncio.from_url`
  pub from_url : String → Exec W C
  pub redis_backend : C → CacheCounters → B
  pub memory_backend : CacheCounters → Dict CacheProfile → B
  pub build_graphql_app :
      String → OperationRegistry → L → Option (Dict B) → RequestCounters → Exec W G
  pub close_pool : L → Exec W (Unit {0})
  pub close_redis : C → Exec W (Unit {0})

abbrev pub new_counters : CacheCounters
new_counters = record { hits = 0; misses = 0; sets = 0; invalidations = 0 }

abbrev pub new_request_counters : RequestCounters
new_request_counters = record { request_count_by_op = []; errors = [] }

-- A result that touches nothing.
abbrev pub pure {ℓ} : {S A : Type ℓ} → Result A → Exec S A
pure r s = (r, s)

-- `if pool is None: raise …`
unfoldable pub require_pool : {L : Type 0} → Option L → Result L
require_pool none = raise (runtime_error "asyncpg.create_pool returned None")
require_pool (some pool) = ok pool

-- `if existing is not None: await existing.close()`
unfoldable pub close_if : {W A : Type 0} → (A → Exec W (Unit {0})) → Option A → Exec W (Unit {0})
close_if close none w = (ok tt, w)
close_if close (some a) w = close a w

module _ {W G L B C : Type 0} (services : Services W G L B C) where
  -- The backends. Without a client there is no Redis profile, and the first argument is not used.
  unfoldable pub backends_with : Dict CacheProfile → Option C → Option (Dict B)
  unfolding make_backends
  backends_with profiles none =
      make_backends (services.memory_backend new_counters profiles)
        (services.memory_backend new_counters) profiles
  backends_with profiles (some client) =
      make_backends (services.redis_backend client new_counters)
        (services.memory_backend new_counters) profiles

  -- the `finally` clause
  unfoldable pub shutdown : Exec (AppState G L B C × W) (Unit {0})
  unfolding close_if
  shutdown (state, w) =
      let popped = record state { pool = none } in
      let (closed, w1) = close_if services.close_pool state.pool w in
      elim closed [
        | raise e ↦ (raise e, (popped, w1))
        | ok _ ↦
            let popped' = record popped { redis_client = none } in
            let (closed', w2) = close_if services.close_redis state.redis_client w1 in
            elim closed' [
              | raise e ↦ (raise e, (popped', w2))
              | ok _ ↦ (
                ok tt,
                (
                  record popped' {
                    graphql_app = none;
                    counters = none;
                    request_counters = none;
                    registry = none;
                    backends_by_profile = none;
                  },
                  w2,
                ),
              )
            ]
      ]

module _ {W G L B C : Type 0} (services : Services W G L B C) (environ : Dict String) where
  -- the environment's part: the DSN, the least and the largest size of the pool
  unfoldable pub pool_settings : Result (String × (ℤ × ℤ))
  unfolding get_item get_env
  pool_settings = do
    dsn ← get_item "POSTGRES_DSN" environ
    pool_min ← services.parse_int (get_env "POSTGRES_POOL_MIN" "1" environ)
    pool_max ← services.parse_int (get_env "POSTGRES_POOL_MAX" "10" environ)
    ok (dsn, (pool_min, pool_max))

  -- the Redis client, when a profile wants it
  unfoldable pub make_client : Dict CacheProfile → Exec W (Option C)
  unfolding redis_profiles_present get_env
  make_client profiles w = elim (redis_profiles_present profiles) [
    | false ↦ (ok none, w)
    | true ↦
        after (services.from_url (get_env "REDIS_URL" "redis://redis:6379/0" environ) w)
          (λ client w'. (ok (some client), w'))
  ]

  -- the lifespan before its `yield`, from the empty state
  unfoldable pub boot : Exec W (AppState G L B C)
  unfolding pool_settings require_pool make_client backends_with get_env
  boot w =
      let schema_path = get_env "SCHEMA_PATH" "/app/examples/schema.graphql" environ in
      let dsl_path = get_env "DSL_PATH" "/app/examples/graphql-api-no-cache.yaml" environ in
      after (services.load dsl_path schema_path w) (λ registry w1.
        after (pure pool_settings w1) (λ settings w2.
          after (services.create_pool settings.0 settings.1.0 settings.1.1 w2) (λ made w3.
            after (pure (require_pool made) w3) (λ pool w4.
              after (make_client registry.cache_profiles w4) (λ client w5.
                let backends = backends_with services registry.cache_profiles client in
                after (services.read_text schema_path w5) (λ sdl w6.
                  after
                    (services.build_graphql_app sdl registry pool backends new_request_counters w6)
                    (λ app w7. (
                      ok (record {
                        pool = some pool;
                        graphql_app = some app;
                        counters = some new_counters;
                        request_counters = some new_request_counters;
                        registry = some registry;
                        backends_by_profile = backends;
                        redis_client = client;
                      }),
                      w7,
                    ))))))))
