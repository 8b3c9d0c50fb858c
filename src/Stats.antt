-- ===== src/Stats.antt =====
-- framework/stats.py: the request counters and the payload of `/stats`.
use hse_graduate_qualificati.Base.{ℕ, String, Bool, true, ◌&&◌, [], ◌∷◌, if◌then◌else◌}
use hse_graduate_qualificati.Base.Dict.{Dict}
use hse_graduate_qualificati.Cache.Backend.{CacheCounters}
use hse_graduate_qualificati.Dsl.Registry.{OperationRegistry}
use hse_graduate_qualificati.Dsl.Schema.{CacheProfile, BackendKind, is_redis, is_in_memory}

pub record RequestCounters : Type 0 where
  pub request_count_by_op : Dict ℕ
  pub errors : Dict ℕ

-- `{prof.backend for prof in profiles.values()} == {kind}` for a dict that is not empty: every
-- element of the set passes the test for `kind`
unfoldable pub all_backends : (BackendKind → Bool) → Dict CacheProfile → Bool
all_backends is_kind [] = true
all_backends is_kind ((name, prof) ∷ profiles) =
    is_kind prof.backend && all_backends is_kind profiles

unfoldable pub derive_backend : Dict CacheProfile → String
unfolding all_backends
derive_backend [] = "none"
derive_backend (p ∷ profiles) =
    if all_backends is_redis (p ∷ profiles)
    then "redis"
    else if all_backends is_in_memory (p ∷ profiles)
    then "in_memory"
    else "mixed"

-- The payload's keys.
pub record StatsPayload : Type 0 where
  pub cache_hits : ℕ
  pub cache_misses : ℕ
  pub invalidations : ℕ
  pub errors : Dict ℕ
  pub request_count_by_op : Dict ℕ
  pub backend : String

unfoldable pub build_stats_payload :
    CacheCounters → RequestCounters → OperationRegistry → StatsPayload
unfolding derive_backend
build_stats_payload cache requests registry = record {
  cache_hits = cache.hits;
  cache_misses = cache.misses;
  invalidations = cache.invalidations;
  errors = requests.errors;
  request_count_by_op = requests.request_count_by_op;
  backend = derive_backend registry.cache_profiles;
}
