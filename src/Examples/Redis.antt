-- ===== src/Examples/Redis.antt =====
-- redis_backend.py on one server: a hit, a deletion by the script, and a pipeline that breaks off.
use hse_graduate_qualificati.Base.{
  contains, nat_eq, if◌then◌else◌, false, none, ℕ, String, ◌≡◌, refl, some, List, [], ◌∷◌, arith,
}
use hse_graduate_qualificati.Base.Exec.{ok, raise, library_error}
use hse_graduate_qualificati.Cache.Backend.{Write, zero_counters}
use hse_graduate_qualificati.Cache.Backend.History
use hse_graduate_qualificati.Cache.Backend.History.{Call, run, Justified, HasKey}
use hse_graduate_qualificati.Cache.Redis
use hse_graduate_qualificati.Cache.Redis.{
  RedisBackend, backend, expiry, rule_index_key, tag_index_key,
}
use hse_graduate_qualificati.Cache.Redis.Names.{IsPayloadKey, IsPayloadKey-first}
use hse_graduate_qualificati.Cache.Redis.Refines.{redis_hit-Justified}
use hse_graduate_qualificati.Cache.Redis.Broken.{set_with_indexes_breaks}
use hse_graduate_qualificati.Cache.Redis.Server.{RedisServer, RedisLaws, IsWhole}
use hse_graduate_qualificati.Examples.Server.{server, server_laws, no_data}

abbrev redis_start : RedisBackend server
redis_start = record { server = no_data; counters = zero_counters; lua_loaded = false }

abbrev write_of_key : String → Write
write_of_key k = record {
  profile_name = "hot";
  key = k;
  value = 7 ∷ [];
  ttl = 60;
  rule = "r";
  tags = "t1" ∷ [];
}

k1-IsPayloadKey : IsPayloadKey "k1"
k1-IsPayloadKey = IsPayloadKey-first "k" "1" (omega arith) (omega arith)

abbrev calls : List (ℕ × Call)
calls = (1, Call.set_with_indexes (write_of_key "k1")) ∷ (2, Call.del_by_tag "t2") ∷ []

hit :
    (Redis.get server 5 "k1"
      (run (backend server) calls ((Redis.flush server redis_start).1, [])).0).0
    ≡ ok (some (7 ∷ []))
unfolding Redis.get run History.call Redis.del_by_tag Redis.del_by_index Redis.ensure_lua_loaded
    Redis.set_with_indexes Redis.sadd_tags tag_index_key rule_index_key Redis.flush contains expiry
hit = refl

server_whole : IsWhole server
server_whole now n r e breaks = cc breaks

redis_hit-Justified_example :
    Justified
      (λ profile ttl. expiry ttl)
      (run (backend server) calls ((Redis.flush server redis_start).1, [])).1
      5
      "k1"
      (7 ∷ [])
redis_hit-Justified_example =
    redis_hit-Justified server server_whole server_laws redis_start calls 5 "k1" (7 ∷ [])
      k1-IsPayloadKey (k1-IsPayloadKey, (tt, tt)) hit

-- A server on which each call at the time 1 breaks off behind its first command.
abbrev breaking : RedisServer
breaking = record server {
  breaks =
      λ now r. if nat_eq now 1 then some (1, library_error "Connection reset by peer") else none;
}

abbrev breaking_laws : RedisLaws breaking
breaking_laws = record {
  get-set_self = server_laws.get-set_self;
  get-set_ne = server_laws.get-set_ne;
  get-sadd = server_laws.get-sadd;
  get-del_hit = server_laws.get-del_hit;
  get-del = server_laws.get-del;
  get-del_other = server_laws.get-del_other;
  get-flushdb = server_laws.get-flushdb;
  member-set = server_laws.member-set;
  member-sadd = server_laws.member-sadd;
  member-del = server_laws.member-del;
  member-flushdb = server_laws.member-flushdb;
}

abbrev breaking_start : RedisBackend breaking
breaking_start = record { server = no_data; counters = zero_counters; lua_loaded = false }

set_with_indexes_breaks_example :
    ((Redis.set_with_indexes breaking 1 (write_of_key "k1") breaking_start).0
      ≡ raise (library_error "Connection reset by peer"))
    × (breaking.get 20 "k1"
          (Redis.del_by_rule breaking 9 "r"
            (Redis.set_with_indexes breaking 1 (write_of_key "k1") breaking_start).1).1.server
        ≡ breaking.get 20 "k1" (breaking.set 1 "k1" (7 ∷ []) (expiry 60) no_data))
unfolding contains
set_with_indexes_breaks_example =
    set_with_indexes_breaks breaking breaking_laws breaking_start 1 9 20 (write_of_key "k1")
      (library_error "Connection reset by peer") k1-IsPayloadKey refl refl
