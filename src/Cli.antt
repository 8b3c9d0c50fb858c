-- ===== src/Cli.antt =====
-- framework/cli.py: the process's state, the two routes, and the lifespan around them.
pub mod Backends
pub mod Lifespan
pub mod Served
use Prim.Native.String
use hse_graduate_qualificati.Base.{
  ℕ, String, Bool, true, false, ◌||◌, ◌==◌, Option, none, some, List, [], ◌∷◌, if◌then◌else◌,
}
use hse_graduate_qualificati.Base.Dict.{Dict, lookup, insert}
use hse_graduate_qualificati.Base.Exec.{Result, ok, raise, runtime_error, Exec, after, ◌>>=◌}
use hse_graduate_qualificati.Base.Int.{ℤ}
use hse_graduate_qualificati.Base.Items.{get_item}
use hse_graduate_qualificati.Cache.Backend.{CacheCounters}
use hse_graduate_qualificati.Dsl.Registry.{OperationRegistry}
use hse_graduate_qualificati.Dsl.Schema.{CacheProfile, is_redis, is_in_memory}
use hse_graduate_qualificati.Stats.{RequestCounters, StatsPayload, build_stats_payload}

-- `_state`: a key that is not there is `none`. `G`, `L`, `B` and `C` are the types of the GraphQL app,
-- the connection pool, the backends and the Redis client. A key whose value is `None` is read as a
-- key that is not there, since the code reads them with `get` and `pop(…, None)`.
pub record AppState (G L B C : Type 0) : Type 0 where
  pub pool : Option L
  pub graphql_app : Option G
  pub counters : Option CacheCounters
  pub request_counters : Option RequestCounters
  pub registry : Option OperationRegistry
  pub backends_by_profile : Option (Dict B)
  pub redis_client : Option C

abbrev pub empty_state : {G L B C : Type 0} → AppState G L B C
empty_state = record {
  pool = none;
  graphql_app = none;
  counters = none;
  request_counters = none;
  registry = none;
  backends_by_profile = none;
  redis_client = none;
}

abbrev pub zero_payload : StatsPayload
zero_payload = record {
  cache_hits = 0;
  cache_misses = 0;
  invalidations = 0;
  errors = [];
  request_count_by_op = [];
  backend = "none";
}

-- `stats`
unfoldable pub stats : {G L B C : Type 0} → AppState G L B C → StatsPayload
unfolding build_stats_payload
stats state = elim state.counters [
  | none ↦ zero_payload
  | some counters ↦ elim state.request_counters [
    | none ↦ zero_payload
    | some requests ↦ elim state.registry [
      | none ↦ zero_payload
      | some registry ↦ build_stats_payload counters requests registry
    ]
  ]
]

-- The messages that are sent: the start of a response and its body.
pub data Message : Type 0 where
  response_start : ℕ → Dict String → Message
  response_body : String → Message

-- `_graphql_dispatch`: what is sent for a scope, where `app` is what the GraphQL app sends.
unfoldable pub graphql_dispatch :
    {G L B C : Type 0} → (G → String → List Message) → AppState G L B C → String → List Message
graphql_dispatch app state scope_type = elim state.graphql_app [
  | none ↦
      if scope_type == "http"
      then response_start 503 (("content-type", "application/json") ∷ [])
        ∷ response_body "{\"error\":\"booting\"}"
        ∷ []
      else []
  | some graphql_app ↦ app graphql_app scope_type
]

-- `any(p.backend == "redis" for p in profiles.values())`
unfoldable pub redis_profiles_present : Dict CacheProfile → Bool
redis_profiles_present [] = false
redis_profiles_present ((name, p) ∷ profiles) =
    is_redis p.backend || redis_profiles_present profiles

unfoldable pub in_memory_profiles : Dict CacheProfile → Dict CacheProfile
in_memory_profiles [] = []
in_memory_profiles ((name, prof) ∷ profiles) =
    let rest = in_memory_profiles profiles in
    if is_in_memory prof.backend then (name, prof) ∷ rest else rest

module _ {B : Type 0} where
  -- the loop that sets a Redis backend for each Redis profile
  unfoldable pub set_redis : B → Dict CacheProfile → Dict B → Dict B
  set_redis backend [] backends = backends
  set_redis backend ((name, prof) ∷ profiles) backends =
      set_redis backend profiles
        (if is_redis prof.backend then insert name backend backends else backends)

  -- the loop over `in_memory_profiles`
  unfoldable pub set_memory : B → Dict CacheProfile → Dict B → Dict B
  set_memory backend [] backends = backends
  set_memory backend ((name, prof) ∷ profiles) backends =
      set_memory backend profiles (insert name backend backends)

  -- The backends of the profiles, or `None` when there are none. The Redis backends have the client and
  -- the counters in common and behave alike, so they are one; the memory backend gets its profiles. Its
  -- constructor raises only for a profile without `max_entries`, which the loader does not let through.
  unfoldable pub make_backends : B → (Dict CacheProfile → B) → Dict CacheProfile → Option (Dict B)
  unfolding redis_profiles_present in_memory_profiles set_redis set_memory
  make_backends redis_backend memory_backend [] = none
  make_backends redis_backend memory_backend (p ∷ profiles) =
      let all = p ∷ profiles in
      let in_memory = in_memory_profiles all in
      let with_redis = if redis_profiles_present all then set_redis redis_backend all [] else [] in
      some (set_memory (memory_backend in_memory) in_memory with_redis)
