-- ===== src/Examples/Memory.antt =====
-- memory_backend.py on one in-memory profile: a write, a hit and an invalidation.
use hse_graduate_qualificati.Base.{
  if◌then◌else◌, contains, ℕ, ◌≡◌, refl, none, some, List, [], ◌∷◌, arith, text_cases, inl, inr,
  hit_inv, ap, ◌∙◌,
}
use hse_graduate_qualificati.Base.Dict.{Dict, lookup, insert, has_key}
use hse_graduate_qualificati.Base.Exec.{ok}
use hse_graduate_qualificati.Cache.Backend.{Write, zero_counters}
use hse_graduate_qualificati.Cache.Backend.Ideal.{
  Ideal, empty, write, entry_of, drop_rule, drop_tag,
}
use hse_graduate_qualificati.Cache.Backend.History
use hse_graduate_qualificati.Cache.Backend.History.{Call, run, Justified}
use hse_graduate_qualificati.Cache.Memory
use hse_graduate_qualificati.Cache.Memory.{index_keys, MemoryBackend, backend, init}
use hse_graduate_qualificati.Cache.Memory.Models.{Models, profile_lifetime}
use hse_graduate_qualificati.Cache.Memory.Refines.{IsDict, HasRoom, init-Models}
use hse_graduate_qualificati.Cache.Memory.Counts.{Accounts, count_calls, run-Accounts}
use hse_graduate_qualificati.Cache.Memory.Exact.{get-del_by_rule, get-del_by_tag}
use hse_graduate_qualificati.Cache.Memory.Writes.{set_with_indexes-Models}
use hse_graduate_qualificati.Cache.Memory.Fresh.{memory_hit-Justified, get-set_with_indexes}
use hse_graduate_qualificati.Dsl.Schema.{CacheProfile, in_memory, lru}
use hse_graduate_qualificati.Examples.Ttl.{caches, laws, FunCache}

abbrev pub hot : CacheProfile
hot = record {
  backend = in_memory;
  eviction = lru;
  ttl_seconds = 60;
  max_entries = some 10;
  invalidation = none;
}

abbrev pub profiles : Dict CacheProfile
profiles = ("hot", hot) ∷ []

abbrev hot_cache : FunCache
hot_cache = caches.new 10 (some 60)

abbrev fresh_backend : MemoryBackend caches
fresh_backend = record {
  caches = ("hot", hot_cache) ∷ [];
  key_profile = [];
  rule_index = [];
  tag_index = [];
  counters = zero_counters;
}

abbrev pub write_one : Write
write_one = record {
  profile_name = "hot";
  key = "k1";
  value = 7 ∷ [];
  ttl = 60;
  rule = "r";
  tags = "t1" ∷ [];
}

made : init caches profiles zero_counters ≡ ok fresh_backend
unfolding init Memory.make_caches Memory.new_cache Memory.add_cache Memory.cache_ttl
made = refl

distinct : IsDict profiles
unfolding has_key
distinct = (refl, tt)

room : HasRoom profiles
unfolding lookup
room p prof size found given = elim (text_cases "hot" p) [
  | inl same ↦
      let is_hot : hot ≡ prof = hit_inv "hot" p hot prof none same found in
      let ten : some 10 ≡ some size = ap CacheProfile.max_entries is_hot ∙ given in
      let is_ten : 10 ≡ size = cc ten in omega arith
  | inr differs ↦ cc (rw differs at found)
]

abbrev calls : List (ℕ × Call)
calls = (1, Call.set_with_indexes write_one) ∷ (2, Call.get "k2") ∷ (3, Call.del_by_tag "t2") ∷ []

hit :
    (Memory.get caches 5 "k1" (run (backend caches) calls (fresh_backend, [])).0).0
    ≡ ok (some (7 ∷ []))
unfolding Memory.get run lookup History.call Memory.del_by_tag Memory.evict_all Memory.index_keys
    Memory.set_with_indexes insert
hit = refl

memory_hit-Justified_example :
    Justified
      (λ profile ttl. profile_lifetime profiles profile)
      (run (backend caches) calls (fresh_backend, [])).1
      5
      "k1"
      (7 ∷ [])
memory_hit-Justified_example =
    memory_hit-Justified caches laws profiles zero_counters fresh_backend calls 5 "k1" (7 ∷ [])
      distinct room made hit

fresh-Models : Models caches profiles fresh_backend empty
fresh-Models = init-Models caches laws profiles zero_counters fresh_backend distinct room made

get-set_with_indexes_example :
    ((Memory.set_with_indexes caches 1 write_one fresh_backend).0 ≡ ok tt)
    × ((Memory.get caches 40 "k1" (Memory.set_with_indexes caches 1 write_one fresh_backend).1).0
        ≡ ok (some (7 ∷ [])))
unfolding lookup Memory.cache_ttl
get-set_with_indexes_example =
    get-set_with_indexes caches laws profiles fresh_backend empty 1 40 write_one hot_cache
      fresh-Models refl (omega arith) (omega arith)

abbrev pub written_backend : MemoryBackend caches
written_backend = (Memory.set_with_indexes caches 1 write_one fresh_backend).1

abbrev pub holding : Ideal
holding = write "k1" (entry_of 1 (profile_lifetime profiles "hot") write_one) empty

pub holding-Models : Models caches profiles written_backend holding
unfolding Memory.set_with_indexes lookup
holding-Models =
    set_with_indexes-Models caches laws profiles fresh_backend empty 1 write_one fresh-Models

get-del_by_rule_example :
    ((Memory.del_by_rule caches 9 "r" written_backend).0 ≡ ok tt)
    × Models caches profiles
        (Memory.del_by_rule caches 9 "r" written_backend).1
        (drop_rule "r" holding)
    × ((Memory.get caches 12 "k1" (Memory.del_by_rule caches 9 "r" written_backend).1).0 ≡ (
        if contains "k1" (index_keys "r" written_backend.rule_index)
        then ok none
        else (Memory.get caches 12 "k1" written_backend).0))
get-del_by_rule_example =
    get-del_by_rule caches laws profiles written_backend holding 9 12 "r" "k1" holding-Models
      (omega arith)

get-del_by_tag_example :
    ((Memory.del_by_tag caches 9 "t1" written_backend).0 ≡ ok tt)
    × Models caches profiles
        (Memory.del_by_tag caches 9 "t1" written_backend).1
        (drop_tag "t1" holding)
    × ((Memory.get caches 12 "k1" (Memory.del_by_tag caches 9 "t1" written_backend).1).0 ≡ (
        if contains "k1" (index_keys "t1" written_backend.tag_index)
        then ok none
        else (Memory.get caches 12 "k1" written_backend).0))
get-del_by_tag_example =
    get-del_by_tag caches laws profiles written_backend holding 9 12 "t1" "k1" holding-Models
      (omega arith)

run-Accounts_example :
    Accounts
      (run (backend caches) calls (fresh_backend, [])).0.counters
      (run (backend caches) calls (fresh_backend, [])).1
unfolding count_calls
run-Accounts_example =
    run-Accounts caches calls fresh_backend []
      (record { reads = refl; writes = refl; deletes = refl })
