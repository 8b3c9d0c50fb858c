-- ===== src/Loadtest/Runner.antt =====
-- loadtest/runner.py: the report of one cell, from the `/stats` payloads before and after it. The
-- latencies and throughputs, which are read from locust's tables, are parameters of the types `L`
-- and `T`; the ratio of hits is kept as numerator and denominator, and `none` is 0.0.
use hse_graduate_qualificati.Base.{
  ℕ, String, ◌≡◌, refl, ◌||◌, ◌==◌, Option, none, some, List, [], ◌∷◌, if◌then◌else◌, ltb, contains,
  text_cases, inl, inr, Bool-cases, eq_refl, ◌∙◌,
}
use hse_graduate_qualificati.Base.Dict.{Dict, lookup, has_key}
use hse_graduate_qualificati.Base.Int.{ℤ, pos, ◌+ℤ◌, ◌-ℤ◌, pos_part}
use hse_graduate_qualificati.Stats.{StatsPayload}

-- `int(d.get(k, 0))`
unfoldable pub count_at : String → Dict ℕ → ℕ
count_at key counts = elim (lookup key counts) [ none ↦ 0 | some n ↦ n ]

-- `set(end) | set(start)`
unfoldable pub union_keys : Dict ℕ → Dict ℕ → List String
union_keys [] [] = []
union_keys [] ((k, n) ∷ start) = k ∷ union_keys [] start
union_keys ((k, n) ∷ end) start = k ∷ union_keys end start

-- the comprehension over `keys`
unfoldable pub deltas : Dict ℕ → Dict ℕ → List String → Dict ℤ
unfolding count_at
deltas end start [] = []
deltas end start (k ∷ keys) =
    (k, pos (count_at k end) -ℤ pos (count_at k start)) ∷ deltas end start keys

unfoldable pub delta_int_dict : Dict ℕ → Dict ℕ → Dict ℤ
unfolding union_keys deltas
delta_int_dict end start = deltas end start (union_keys end start)

pub record CacheReport : Type 0 where
  pub hits : ℤ
  pub misses : ℤ
  pub hit_ratio : Option (ℤ × ℤ)
  pub invalidations : ℤ
  pub sets : ℤ

pub record CellReport (L T : Type 0) : Type 0 where
  pub strategy : String
  pub backend : String
  pub scenario : String
  pub started_at : String
  pub ended_at : String
  pub duration_s : ℤ
  pub latency : L
  pub throughput : T
  pub cache : CacheReport
  pub request_count_by_op : Dict ℤ
  pub errors : Dict ℤ
  pub framework_backend : String

-- `sets` is hits and misses together, as the source says of itself.
unfoldable pub cache_report : StatsPayload → StatsPayload → CacheReport
cache_report start end =
    let cache_hits = pos end.cache_hits -ℤ pos start.cache_hits in
    let cache_misses = pos end.cache_misses -ℤ pos start.cache_misses in
    let total = cache_hits +ℤ cache_misses in
    record {
      hits = cache_hits;
      misses = cache_misses;
      hit_ratio = if ltb 0 (pos_part total) then some (cache_hits, total) else none;
      invalidations = pos end.invalidations -ℤ pos start.invalidations;
      sets = cache_hits +ℤ cache_misses;
    }

unfoldable pub build_report :
    {L T : Type 0}
    → String
    → String
    → String
    → StatsPayload
    → StatsPayload
    → L
    → T
    → String
    → String
    → ℤ
    → CellReport L T
unfolding cache_report delta_int_dict
build_report strategy backend scenario start end latency throughput started_at ended_at duration_s =
    record {
      strategy = strategy;
      backend = backend;
      scenario = scenario;
      started_at = started_at;
      ended_at = ended_at;
      duration_s = duration_s;
      latency = latency;
      throughput = throughput;
      cache = cache_report start end;
      request_count_by_op = delta_int_dict end.request_count_by_op start.request_count_by_op;
      errors = delta_int_dict end.errors start.errors;
      framework_backend = end.backend;
    }

lookup-deltas :
    (end start : Dict ℕ) (keys : List String) (k : String)
    → lookup k (deltas end start keys)
      ≡ (if contains k keys then some (pos (count_at k end) -ℤ pos (count_at k start)) else none)
unfolding lookup deltas contains
lookup-deltas end start [] k = refl
lookup-deltas end start (j ∷ keys) k = elim (text_cases j k) [
  | inl same ↦ rw (same, eq_refl k)
  | inr differs ↦ rw differs (lookup-deltas end start keys k)
]

contains-union_keys :
    (end start : Dict ℕ) (k : String)
    → contains k (union_keys end start) ≡ (has_key k end || has_key k start)
unfolding union_keys contains has_key
contains-union_keys [] [] k = refl
contains-union_keys [] ((j, n) ∷ start) k = rw (contains-union_keys [] start k)
contains-union_keys ((j, n) ∷ end) start k = elim (Bool-cases (j == k)) [
  | inl same ↦ rw same
  | inr differs ↦ rw differs (contains-union_keys end start k)
]

-- The deltas have a key exactly when the counters had it at the end or at the start, with what it
-- counts at the end less what it counted at the start, a missing key counting 0.
pub lookup-delta_int_dict :
    (end start : Dict ℕ) (k : String)
    → lookup k (delta_int_dict end start) ≡ (
        if has_key k end || has_key k start
        then some (pos (count_at k end) -ℤ pos (count_at k start))
        else none)
unfolding delta_int_dict
lookup-delta_int_dict end start k =
    lookup-deltas end start (union_keys end start) k ∙ rw (contains-union_keys end start k)
