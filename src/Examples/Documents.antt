-- ===== src/Examples/Documents.antt =====
-- The loader's checks and the server's tables on a small document, and two counted requests.
use hse_graduate_qualificati.Base.{
  if◌then◌else◌, ◌==◌, map, ◌++◌, ℕ, ◌+◌, String, ◌≡◌, refl, ◌↔◌, true, All, none, some, List, [],
  ◌∷◌, contains,
}
use hse_graduate_qualificati.Base.Dict.{Dict, lookup, has_key}
use hse_graduate_qualificati.Base.Exec.{ok, raise, value_error}
use hse_graduate_qualificati.Cache.Backend.{zero_counters}
use hse_graduate_qualificati.Cache.Memory.{MemoryBackend, init}
use hse_graduate_qualificati.Cache.Memory.Accepted.{check_profile_max_entries-init}
use hse_graduate_qualificati.Dsl.Loader.Checks.{
  check_operation_refs, check_invalidate_strategy, check_profile_refs, check_rule_profiles,
  check_profile_max_entries,
}
use hse_graduate_qualificati.Dsl.Loader.Accepted.{SpecIsConsistent, check_invalidate_strategy_lem}
use hse_graduate_qualificati.Dsl.Loader.Operations.{
  IsDistinct, all_operations, check_operation_refs_lem,
}
use hse_graduate_qualificati.Dsl.Schema.{Document, CacheRule, MutationSpec, many, update, tag}
use hse_graduate_qualificati.Examples.Memory.{profiles}
use hse_graduate_qualificati.Examples.Ttl.{caches}
use hse_graduate_qualificati.Graphql.Server.{CacheContext, cache_contexts}
use hse_graduate_qualificati.Graphql.Server.Contexts.{IsContextOf, cache_contexts-IsContextOf}
use hse_graduate_qualificati.Graphql.Server.Requests.{
  Request, serve, serve-count_of, count_of, requests_of, how_many, is_violation, is_other_error,
}
use hse_graduate_qualificati.Loadtest.Shape.{tick, seconds, replicate, tick-seconds}
use hse_graduate_qualificati.Base.Int.{pos, ◌-ℤ◌}
use hse_graduate_qualificati.Loadtest.Runner.{delta_int_dict, count_at, lookup-delta_int_dict}
use hse_graduate_qualificati.Stats.{RequestCounters}

abbrev users_rule : CacheRule
users_rule = record {
  operations = "users" ∷ [];
  profile = "hot";
  cache_key = none;
  tags = some ("t1" ∷ []);
}

abbrev document : Document
document = record {
  sidecar = record {
    listen = record { loopback = "127.0.0.1:8080" };
    boot = record { postgres_timeout = "30s" };
    cache = none;
  };
  data_sources = record { postgres = record { dsn = "postgres://db"; tables = [] } };
  queries =
      (
        "users",
        record { type_name = "User"; source = "postgres"; multiplicity = many; where_text = none },
      )
      ∷ [];
  mutations =
      (
        "rename",
        record {
          type_name = "User";
          source = "postgres";
          kind = update;
          set_values = none;
          where_text = none;
          invalidates = some (record { strategy = tag; rules = none; tags = some ("t1" ∷ []) });
        },
      )
      ∷ [];
  cache_profiles = profiles;
  cache_rules = ("r", users_rule) ∷ [];
}

check_operation_refs_lem_example : (check_operation_refs document ≡ ok tt) ↔ (
    All (λ op. has_key op document.queries ≡ true) (all_operations document.cache_rules)
    × IsDistinct (all_operations document.cache_rules))
check_operation_refs_lem_example = check_operation_refs_lem document

check_invalidate_strategy_lem_example :
    (check_invalidate_strategy document ≡ ok tt)
    ↔ All
        (λ (m : String × MutationSpec). SpecIsConsistent document.cache_rules m.1.invalidates)
        document.mutations
check_invalidate_strategy_lem_example = check_invalidate_strategy_lem document

check_profile_max_entries-init_example :
    (check_profile_max_entries document ≡ ok tt)
    ↔ ((b : MemoryBackend caches) × (init caches document.cache_profiles zero_counters ≡ ok b))
check_profile_max_entries-init_example =
    check_profile_max_entries-init caches document zero_counters

cache_contexts-IsContextOf_example :
    (ctxs : Dict (CacheContext ℕ)) × (ctx : CacheContext ℕ) × (cache_contexts profiles
        (("hot", 1) ∷ [])
        (("r", users_rule) ∷ [])
        []
      ≡ ok ctxs)
    × (lookup "users" ctxs ≡ some ctx)
    × IsContextOf profiles (("hot", 1) ∷ []) "r" users_rule ctx
unfolding check_profile_refs check_rule_profiles has_key lookup contains
cache_contexts-IsContextOf_example =
    cache_contexts-IsContextOf document (("hot", 1) ∷ []) "r" users_rule "users" (λ p known. known)
      refl (refl, tt) refl refl

abbrev requests : List (Request ℕ ℕ)
requests =
    record { op_name = "users"; resolver = λ args s. (ok s, s); args = [] }
    ∷ record { op_name = "users"; resolver = λ args s. (raise (value_error "bad"), s); args = [] }
    ∷ []

abbrev no_requests : RequestCounters
no_requests = record { request_count_by_op = []; errors = [] }

serve-count_of_example :
    (count_of "users" (serve requests (no_requests, 0)).1.0.request_count_by_op
      ≡ requests_of "users" (serve requests (no_requests, 0)).0 + count_of "users" [])
    × (count_of "framework.internal_error" (serve requests (no_requests, 0)).1.0.errors
        ≡ (if "multiplicity.violation" == "framework.internal_error"
            then how_many is_violation (serve requests (no_requests, 0)).0
            else 0)
          + (if "framework.internal_error" == "framework.internal_error"
              then how_many is_other_error (serve requests (no_requests, 0)).0
              else 0)
          + count_of "framework.internal_error" [])
serve-count_of_example = serve-count_of requests no_requests 0 "users" "framework.internal_error"

tick-seconds_example :
    map (tick 60) (seconds 0 (30 + 60 + 5))
    ≡ replicate 30 (some (50, 50)) ++ replicate 60 (some (200, 50)) ++ replicate 5 none
tick-seconds_example = tick-seconds 60 5

lookup-delta_int_dict_example :
    lookup "users" (delta_int_dict (("users", 7) ∷ []) (("users", 5) ∷ ("rename", 1) ∷ []))
    ≡ some (pos 2)
unfolding lookup has_key count_at ◌-ℤ◌
lookup-delta_int_dict_example =
    lookup-delta_int_dict (("users", 7) ∷ []) (("users", 5) ∷ ("rename", 1) ∷ []) "users"
