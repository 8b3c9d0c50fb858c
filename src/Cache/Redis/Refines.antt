-- ===== src/Cache/Redis/Refines.antt =====
-- `RedisBackend` as an implementation of the protocol's contract, and what that gives its clients.
use hse_graduate_qualificati.Base.{
  ℕ, zero, suc, String, ◌≡◌, refl, true, Option, none, some, List, [], All, inl, inr, ◌⊎◌,
  Option-cases, arith,
}
use hse_graduate_qualificati.Base.Exec.{Error, Result, ok, raise, Exec, after, Result-cases}
use hse_graduate_qualificati.Cache.Backend.{Bytes, Write, count_invalidation}
use hse_graduate_qualificati.Cache.Backend.Contract.{Contract, unless_raised}
use hse_graduate_qualificati.Cache.Backend.History.{Call, run, Justified, HasKey, hit-Justified}
use hse_graduate_qualificati.Cache.Backend.Ideal.{
  Ideal, Serves, drop_rule, drop_tag, write, entry_of, empty,
}
use hse_graduate_qualificati.Cache.Redis.{
  RedisBackend, backend, rule_index_key, tag_index_key, expiry, command, execute, run_commands,
  take, pipeline, get, finish_get, set_with_indexes, del_by_index, del_by_name, del_by_rule,
  del_by_tag, ensure_lua_loaded, flush,
}
use hse_graduate_qualificati.Cache.Redis.Models.{Holds, Holds-drop_rule, Holds-drop_tag}
use hse_graduate_qualificati.Cache.Redis.Names.{IsPayloadKey}
use hse_graduate_qualificati.Cache.Redis.Script.{Removed, del_by_index-Removed, del_by_index_raised}
use hse_graduate_qualificati.Cache.Redis.Server.{RedisServer, RedisLaws, IsWhole}
use hse_graduate_qualificati.Cache.Redis.Writes.{after_pipeline-Holds}

answered :
    (R : RedisServer) (o : Option Bytes) (b : RedisBackend R) (v : Bytes)
    → (finish_get R o b).0 ≡ ok (some v)
    → o ≡ some v
unfolding finish_get
answered R none b v h = cc
answered R (some w) b v h = cc

finish_server :
    (R : RedisServer) (v : Option Bytes) (b : RedisBackend R)
    → (finish_get R v b).1.server ≡ b.server
unfolding finish_get
finish_server R none b = refl
finish_server R (some v) b = refl

module _ (R : RedisServer) (whole : IsWhole R) where
  -- A call does all that it is to do, or raises and has done nothing.
  command-cases :
      {A : Type 0} (now : ℕ) (call : Exec R.State A) (r : R.State)
      → (command R now call r ≡ call r) ⊎ ((e : Error) × (command R now call r ≡ (raise e, r)))
  unfolding command
  command-cases now call r = elim (Option-cases (R.breaks now r)) [
    | inl fine ↦ inl (rw (fine, command) refl)
    | inr ((zero, e), breaks) ↦ inr (e, rw (breaks, command) refl)
    | inr ((suc n, e), breaks) ↦
        let none_done : suc n ≡ 0 = whole now (suc n) r e breaks in absurd (omega arith)
  ]

  execute-cases :
      (now : ℕ) (commands : List (R.State → R.State)) (r : R.State)
      → (execute R now commands r ≡ (ok tt, run_commands R commands r))
        ⊎ ((e : Error) × (execute R now commands r ≡ (raise e, r)))
  unfolding execute take run_commands
  execute-cases now commands r = elim (Option-cases (R.breaks now r)) [
    | inl fine ↦ inl (rw (fine, execute) refl)
    | inr ((zero, e), breaks) ↦ inr (e, rw (breaks, execute) refl)
    | inr ((suc n, e), breaks) ↦
        let none_done : suc n ≡ 0 = whole now (suc n) r e breaks in absurd (omega arith)
  ]

  module _ (L : RedisLaws R) where
    script-Holds :
        (name : String) (r : R.State) (m m' : Ideal)
        → ((r' : R.State) → Removed R name r' r → Holds R r' m')
        → Holds R r m
        → Holds R (del_by_index R name r).1 (unless_raised (del_by_index R name r).0 m' m)
    script-Holds name r m m' step h = elim (Result-cases (del_by_index R name r).0) [
      | inl (n, fine) ↦
          rw fine (step (del_by_index R name r).1 (del_by_index-Removed R L name r n fine))
      | inr (e, failed) ↦
          let stays = del_by_index_raised R name r (λ n fine. cc (failed, fine)) in
          rw (failed, stays) h
    ]

    counted-Holds :
        (x : Result ℕ × R.State) (b : RedisBackend R) (m m' : Ideal)
        → Holds R x.1 (unless_raised x.0 m' m)
        → let y =
            after {B = Unit {0}}
              (x.0, record b { server = x.1 })
              (λ _ b'. (ok tt, record b' { counters = count_invalidation b'.counters })) in
          Holds R y.1.server (unless_raised y.0 m' m)
    counted-Holds (ok n, r) b m m' h = h
    counted-Holds (raise e, r) b m m' h = h

    pub Holds-del_by_name :
        (now : ℕ) (name : String) (b : RedisBackend R) (m m' : Ideal)
        → ((r' : R.State) → Removed R name r' b.server → Holds R r' m')
        → Holds R b.server m
        → Holds R
            (del_by_name R now name b).1.server
            (unless_raised (del_by_name R now name b).0 m' m)
    unfolding del_by_name ensure_lua_loaded
    Holds-del_by_name now name b m m' step h =
        counted-Holds (command R now (del_by_index R name) b.server)
          (record b { lua_loaded = true }) m m'
          (elim (command-cases now (del_by_index R name) b.server) [
            | inl runs ↦ rw runs (script-Holds name b.server m m' step h)
            | inr (e, broken) ↦ rw broken h
          ])

    pub flushdb-Holds : (r : R.State) → Holds R (R.flushdb r) empty
    flushdb-Holds r = record {
      served = λ now k v payload found. cc (found, L.get-flushdb now k r);
      ruled = λ k rule e at has. cc at;
      tagged = λ k tag e at has. cc at;
      rule_members = λ rule k there. cc (there, L.member-flushdb (rule_index_key rule) k r);
      tag_members = λ tag k there. cc (there, L.member-flushdb (tag_index_key tag) k r);
    }

    pub get-Serves :
        (b : RedisBackend R) (m : Ideal) (now : ℕ) (k : String) (v : Bytes)
        → IsPayloadKey k
        → Holds R b.server m
        → (get R now k b).0 ≡ ok (some v)
        → Serves m now k v
    unfolding get
    get-Serves b m now k v key h hit =
        elim (command-cases now (λ r. (ok (R.get now k r), r)) b.server) [
          | inl runs ↦ h.served now k v key (answered R (R.get now k b.server) b v (rw runs at hit))
          | inr (e, broken) ↦ cc (rw broken at hit)
        ]

    pub get_server :
        (b : RedisBackend R) (now : ℕ) (k : String) → (get R now k b).1.server ≡ b.server
    unfolding get
    get_server b now k = elim (command-cases now (λ r. (ok (R.get now k r), r)) b.server) [
      | inl runs ↦ rw runs (finish_server R (R.get now k b.server) b)
      | inr (e, broken) ↦ rw broken refl
    ]

    pub get-Models :
        (b : RedisBackend R) (m : Ideal) (now : ℕ) (k : String)
        → Holds R b.server m
        → Holds R (get R now k b).1.server m
    get-Models b m now k h = rw (get_server b now k) h

    pub set_with_indexes-Models :
        (b : RedisBackend R) (m : Ideal) (now : ℕ) (w : Write)
        → IsPayloadKey w.key
        → Holds R b.server m
        → Holds R (set_with_indexes R now w b).1.server (
            unless_raised
              (set_with_indexes R now w b).0
              (write w.key (entry_of now (expiry w.ttl) w) m)
              m)
    unfolding set_with_indexes run_commands
    set_with_indexes-Models b m now w key h = elim (execute-cases now (pipeline R now w) b.server) [
      | inl runs ↦ rw runs (after_pipeline-Holds R L b.server m now w key h)
      | inr (e, broken) ↦ rw broken h
    ]

    pub del_by_rule-Models :
        (b : RedisBackend R) (m : Ideal) (now : ℕ) (rule : String)
        → Holds R b.server m
        → Holds R
            (del_by_rule R now rule b).1.server
            (unless_raised (del_by_rule R now rule b).0 (drop_rule rule m) m)
    unfolding del_by_rule
    del_by_rule-Models b m now rule h =
        Holds-del_by_name now (rule_index_key rule) b m (drop_rule rule m)
          (λ r' gone. Holds-drop_rule R rule r' b.server m gone h) h

    pub del_by_tag-Models :
        (b : RedisBackend R) (m : Ideal) (now : ℕ) (tag : String)
        → Holds R b.server m
        → Holds R
            (del_by_tag R now tag b).1.server
            (unless_raised (del_by_tag R now tag b).0 (drop_tag tag m) m)
    unfolding del_by_tag
    del_by_tag-Models b m now tag h =
        Holds-del_by_name now (tag_index_key tag) b m (drop_tag tag m)
          (λ r' gone. Holds-drop_tag R tag r' b.server m gone h) h

    pub flush-Models :
        (b : RedisBackend R) (m : Ideal)
        → Holds R b.server m
        → Holds R (flush R b).1.server (unless_raised (flush R b).0 empty m)
    unfolding flush
    flush-Models b m h = flushdb-Holds b.server

    -- `RedisBackend` keeps the contract.
    abbrev pub redis_contract : Contract (backend R)
    redis_contract = record {
      Models = λ b m. Holds R b.server m;
      IsKey = IsPayloadKey;
      lifetime = λ profile ttl. expiry ttl;
      get-Serves = get-Serves;
      get-Models = get-Models;
      set_with_indexes-Models = set_with_indexes-Models;
      del_by_rule-Models = del_by_rule-Models;
      del_by_tag-Models = del_by_tag-Models;
      flush-Models = flush-Models;
    }

    -- Keys that are no index names; a server that has just been flushed, and whose calls, when they
    -- break off, have done nothing. After any calls in any order and at any times, what `get` returns is the last value written for its key, no later call that
    -- came back has deleted that write's rule or one of its tags or flushed the server, and the
    -- write's own `ttl`, if it is not 0, is not over.
    pub redis_hit-Justified :
        (b : RedisBackend R) (calls : List (ℕ × Call)) (now : ℕ) (k : String) (v : Bytes)
        → IsPayloadKey k
        → All (HasKey (backend R) redis_contract) calls
        → (get R now k (run (backend R) calls ((flush R b).1, [])).0).0 ≡ ok (some v)
        → Justified
            (λ profile ttl. expiry ttl)
            (run (backend R) calls ((flush R b).1, [])).1
            now
            k
            v
    unfolding flush
    redis_hit-Justified b calls now k v key keys hit =
        hit-Justified (backend R) redis_contract calls (flush R b).1 now k v key keys
          (flushdb-Holds b.server) hit
