-- ===== src/Cache/Redis.antt =====
-- framework/cache/redis_backend.py: `RedisBackend`, and the Lua script that it registers. The Redis
-- server is not code of the repository: its commands are a parameter. A key of a payload and a name
-- of an index set live in the one keyspace.
pub mod Server
pub mod Names
pub mod Script
pub mod Models
pub mod Writes
pub mod Refines
pub mod Broken
use Prim.Native.String.{◌++◌}
use hse_graduate_qualificati.Base.{
  ℕ, zero, suc, String, Bool, true, Option, none, some, List, [], ◌∷◌, length, ltb, if◌then◌else◌,
}
use hse_graduate_qualificati.Base.Exec.{Result, ok, raise, Exec, library_error, after}
use hse_graduate_qualificati.Cache.Backend.{
  Bytes, CacheCounters, CacheBackend, Write, count_hit, count_miss, count_set, count_invalidation,
}
use hse_graduate_qualificati.Cache.Redis.Server.{RedisServer}

unfoldable pub rule_index_key : String → String
rule_index_key rule = "rule_index:" ++ rule

unfoldable pub tag_index_key : String → String
tag_index_key tag = "tag_index:" ++ tag

-- `ex=ttl` if `ttl > 0`, and no expiry otherwise.
unfoldable pub expiry : ℕ → Option ℕ
expiry zero = none
expiry (suc n) = some (suc n)

module _ (R : RedisServer) where
  pub record RedisBackend : Type 0 where
    pub server : R.State
    pub counters : CacheCounters
    -- `_del_by_index_sha is not None`
    pub lua_loaded : Bool

  -- `_DEL_BY_INDEX_LUA` on `KEYS[1] = name`. `unpack` raises where the members do not fit its stack,
  -- and the script stops there.
  unfoldable pub del_by_index : String → R.State → Result ℕ × R.State
  del_by_index name r =
      let members = R.smembers name r in
      if ltb 0 (length members)
      then if ltb R.unpack_limit (length members)
        then (raise (library_error "too many results to unpack"), r)
        else (ok (R.del_count members r), R.del (name ∷ []) (R.del members r))
      else (ok 0, R.del (name ∷ []) r)

  -- `SCRIPT LOAD` keeps the text; that the server forgets it is not modelled.
  unfoldable pub ensure_lua_loaded : RedisBackend → RedisBackend
  ensure_lua_loaded b = record b { lua_loaded = true }

  finish_get : Option Bytes → RedisBackend → Result (Option Bytes) × RedisBackend
  finish_get none b = (ok none, record b { counters = count_miss b.counters })
  finish_get (some v) b = (ok (some v), record b { counters = count_hit b.counters })

  -- One command, or one script: when the call breaks off it raises, and the command has been run or
  -- has not.
  unfoldable pub command : {A : Type 0} → ℕ → Exec R.State A → Exec R.State A
  command now run r = elim (R.breaks now r) [
    | none ↦ run r
    | some (zero, e) ↦ (raise e, r)
    | some (suc n, e) ↦ (raise e, (run r).1)
  ]

  -- A command that returns nothing the code reads.
  abbrev pub done : (R.State → R.State) → Exec R.State (Unit {0})
  done run r = (ok tt, run r)

  unfoldable pub run_commands : List (R.State → R.State) → R.State → R.State
  run_commands [] r = r
  run_commands (first ∷ commands) r = run_commands commands (first r)

  -- the first `n` of the commands
  unfoldable pub take : ℕ → List (R.State → R.State) → List (R.State → R.State)
  take zero commands = []
  take (suc n) [] = []
  take (suc n) (first ∷ commands) = first ∷ take n commands

  -- `pipe.execute()` of a pipeline that is no transaction: when it breaks off, the commands up to
  -- there stay done. No other client's command comes between them.
  unfoldable pub execute : ℕ → List (R.State → R.State) → Exec R.State (Unit {0})
  unfolding run_commands take
  execute now commands r = elim (R.breaks now r) [
    | none ↦ (ok tt, run_commands commands r)
    | some (n, e) ↦ (raise e, run_commands (take n commands) r)
  ]

  -- What a call of the client does to the server, and what follows it.
  abbrev pub calling :
      {A B : Type 0} → Exec R.State A → (A → Exec RedisBackend B) → Exec RedisBackend B
  calling call next b =
      let (result, r) = call b.server in after (result, record b { server = r }) next

  unfoldable pub get : ℕ → String → Exec RedisBackend (Option Bytes)
  unfolding command finish_get
  get now key = calling (command now (λ r. (ok (R.get now key r), r))) finish_get

  abbrev pub counted : Exec RedisBackend (Unit {0})
  counted b = (ok tt, record b { counters = count_set b.counters })

  unfoldable pub set : ℕ → String → Bytes → ℕ → Exec RedisBackend (Unit {0})
  unfolding command
  set now key value ttl =
      calling (command now (done (R.set now key value (expiry ttl)))) (λ _. counted)

  -- the loop `for tag in tags: pipe.sadd(_tag_index_key(tag), key)`
  unfoldable pub sadd_tags : List String → String → List (R.State → R.State)
  sadd_tags [] key = []
  sadd_tags (tag ∷ tags) key = R.sadd (tag_index_key tag) key ∷ sadd_tags tags key

  -- what the pipeline holds
  abbrev pub pipeline : ℕ → Write → List (R.State → R.State)
  pipeline now w =
      R.set now w.key w.value (expiry w.ttl)
      ∷ R.sadd (rule_index_key w.rule) w.key
      ∷ sadd_tags w.tags w.key

  unfoldable pub set_with_indexes : ℕ → Write → Exec RedisBackend (Unit {0})
  unfolding execute sadd_tags
  set_with_indexes now w = calling (execute now (pipeline now w)) (λ _. counted)

  unfoldable pub delete : ℕ → String → Exec RedisBackend (Unit {0})
  unfolding command
  delete now key = calling (command now (done (R.del (key ∷ [])))) (λ _ b. (ok tt, b))

  -- `evalsha`, then the counter; an error of the call leaves the counter alone
  unfoldable pub del_by_name : ℕ → String → Exec RedisBackend (Unit {0})
  unfolding command
  del_by_name now name b =
      calling (command now (del_by_index name))
        (λ _ b'. (ok tt, record b' { counters = count_invalidation b'.counters }))
        (ensure_lua_loaded b)

  unfoldable pub del_by_rule : ℕ → String → Exec RedisBackend (Unit {0})
  unfolding del_by_name
  del_by_rule now rule = del_by_name now (rule_index_key rule)

  unfoldable pub del_by_tag : ℕ → String → Exec RedisBackend (Unit {0})
  unfolding del_by_name
  del_by_tag now tag = del_by_name now (tag_index_key tag)

  -- Only tests call it; that it breaks off is not modelled.
  unfoldable pub flush : Exec RedisBackend (Unit {0})
  flush b = (ok tt, record b { server = R.flushdb b.server })

  abbrev pub backend : CacheBackend RedisBackend
  backend = record {
    get = get;
    set = set;
    set_with_indexes = set_with_indexes;
    delete = delete;
    del_by_rule = del_by_rule;
    del_by_tag = del_by_tag;
    flush = flush;
  }
