-- ===== src/Cache/Backend.antt =====
-- framework/cache/backend.py: the counters and the `CacheBackend` protocol. An asyncio method that
-- holds the backend's lock, or is one request to Redis, is one step from state to state. Time is an
-- argument `now`, in seconds.
pub mod Ideal
pub mod Contract
pub mod History
use hse_graduate_qualificati.Base.{ℕ, ◌+◌, String, Option, List}
use hse_graduate_qualificati.Base.Exec.{Exec}

-- The payload of a cache entry.
abbrev pub Bytes : Type 0
Bytes = List ℕ

pub record CacheCounters : Type 0 where
  pub hits : ℕ
  pub misses : ℕ
  pub sets : ℕ
  pub invalidations : ℕ

abbrev pub zero_counters : CacheCounters
zero_counters = record { hits = 0; misses = 0; sets = 0; invalidations = 0 }

abbrev pub count_hit : CacheCounters → CacheCounters
count_hit c = record c { hits = c.hits + 1 }

abbrev pub count_miss : CacheCounters → CacheCounters
count_miss c = record c { misses = c.misses + 1 }

abbrev pub count_set : CacheCounters → CacheCounters
count_set c = record c { sets = c.sets + 1 }

abbrev pub count_invalidation : CacheCounters → CacheCounters
count_invalidation c = record c { invalidations = c.invalidations + 1 }

-- What `set_with_indexes` is called with.
pub record Write : Type 0 where
  pub profile_name : String
  pub key : String
  pub value : Bytes
  pub ttl : ℕ
  pub rule : String
  pub tags : List String

-- The protocol, over the state `S` of an implementation.
pub record CacheBackend (S : Type 0) : Type 0 where
  pub get : ℕ → String → Exec S (Option Bytes)
  pub set : ℕ → String → Bytes → ℕ → Exec S (Unit {0})
  pub set_with_indexes : ℕ → Write → Exec S (Unit {0})
  pub delete : ℕ → String → Exec S (Unit {0})
  pub del_by_rule : ℕ → String → Exec S (Unit {0})
  pub del_by_tag : ℕ → String → Exec S (Unit {0})
  pub flush : Exec S (Unit {0})
