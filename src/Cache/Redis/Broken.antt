-- ===== src/Cache/Redis/Broken.antt =====
-- redis_backend.py when the pipeline of `set_with_indexes` breaks off behind its `SET`.
use hse_graduate_qualificati.Base.{
  ℕ, zero, suc, String, ◌≡◌, ◌≢◌, refl, sym, ◌∙◌, true, false, some, [], ◌∷◌, length, ltb,
  Bool-cases, Option-cases, inl, inr,
}
use hse_graduate_qualificati.Base.Exec.{Error, Result, ok, raise, after}
use hse_graduate_qualificati.Cache.Backend.{Write, count_invalidation}
use hse_graduate_qualificati.Cache.Redis.{
  RedisBackend, rule_index_key, expiry, command, execute, run_commands, take, set_with_indexes,
  del_by_index, del_by_name, del_by_rule, ensure_lua_loaded,
}
use hse_graduate_qualificati.Cache.Redis.Names.{IsPayloadKey}
use hse_graduate_qualificati.Cache.Redis.Script.{not-contains-other}
use hse_graduate_qualificati.Cache.Redis.Server.{RedisServer, RedisLaws, has_member}

module _ (R : RedisServer) (L : RedisLaws R) where
  -- The script leaves a key that its set does not list.
  get-del_by_index :
      (name : String) (t : ℕ) (k : String) (r : R.State)
      → name ≢ k
      → has_member R name k r ≡ false
      → R.get t k (del_by_index R name r).1 ≡ R.get t k r
  unfolding del_by_index
  get-del_by_index name t k r other out =
      let no_set = not-contains-other name k other in
      elim (Bool-cases (ltb 0 (length (R.smembers name r)))) [
        | inr empty ↦ rw (empty, del_by_index) (L.get-del_other t (name ∷ []) k r no_set)
        | inl some_member ↦ elim (Bool-cases (ltb R.unpack_limit (length (R.smembers name r)))) [
          | inl too_many ↦ rw (some_member, too_many, del_by_index) refl
          | inr fits ↦
              rw (some_member, fits, del_by_index)
                (L.get-del_other t (name ∷ []) k (R.del (R.smembers name r) r) no_set
                  ∙ L.get-del_other t (R.smembers name r) k r out)
        ]
      ]

  get-command :
      (now : ℕ) (name : String) (t : ℕ) (k : String) (r : R.State)
      → name ≢ k
      → has_member R name k r ≡ false
      → R.get t k (command R now (del_by_index R name) r).1 ≡ R.get t k r
  unfolding command
  get-command now name t k r other out = elim (Option-cases (R.breaks now r)) [
    | inl fine ↦ rw (fine, command) (get-del_by_index name t k r other out)
    | inr ((zero, e), breaks) ↦ rw (breaks, command) refl
    | inr ((suc n, e), breaks) ↦ rw (breaks, command) (get-del_by_index name t k r other out)
  ]

  counted_server :
      (x : Result ℕ × R.State) (b : RedisBackend R)
      → (after {B = Unit {0}}
          (x.0, record b { server = x.1 })
          (λ _ b'. (ok tt, record b' { counters = count_invalidation b'.counters }))).1.server
        ≡ x.1
  counted_server (ok n, r) b = refl
  counted_server (raise e, r) b = refl

  del_by_name_server :
      (now : ℕ) (name : String) (b : RedisBackend R)
      → (del_by_name R now name b).1.server ≡ (command R now (del_by_index R name) b.server).1
  unfolding del_by_name ensure_lua_loaded
  del_by_name_server now name b =
      counted_server (command R now (del_by_index R name) b.server) (record b { lua_loaded = true })

  broken_server :
      (b : RedisBackend R) (now : ℕ) (w : Write) (e : Error)
      → R.breaks now b.server ≡ some (1, e)
      → ((set_with_indexes R now w b).0 ≡ raise e)
        × ((set_with_indexes R now w b).1.server ≡ R.set now w.key w.value (expiry w.ttl) b.server)
  unfolding set_with_indexes execute take run_commands
  broken_server b now w e breaks = rw (breaks, execute) (refl, refl)

  -- A write whose pipeline breaks off behind the `SET`, of a key that its rule's set does not list:
  -- `set_with_indexes` raises, and a later `del_by_rule` of that rule, whatever comes of it, does not
  -- reach the entry: `GET` returns at any time what it would have returned right behind the `SET`.
  pub set_with_indexes_breaks :
      (b : RedisBackend R) (now later t : ℕ) (w : Write) (e : Error)
      → IsPayloadKey w.key
      → R.breaks now b.server ≡ some (1, e)
      → has_member R (rule_index_key w.rule) w.key b.server ≡ false
      → ((set_with_indexes R now w b).0 ≡ raise e)
        × (R.get t w.key (del_by_rule R later w.rule (set_with_indexes R now w b).1).1.server
            ≡ R.get t w.key (R.set now w.key w.value (expiry w.ttl) b.server))
  unfolding del_by_rule
  set_with_indexes_breaks b now later t w e key breaks out =
      let name = rule_index_key w.rule in
      let (raises, is) = broken_server b now w e breaks in
      let not_listed : has_member R name w.key (R.set now w.key w.value (expiry w.ttl) b.server)
          ≡ false =
        L.member-set now w.key w.value (expiry w.ttl) name w.key b.server
          (λ same. key.not_rule w.rule (sym same))
        ∙ out in
      let b' = (set_with_indexes R now w b).1 in
      (
        raises,
        rw (del_by_name_server later name b', is)
            (get-command later name t w.key (R.set now w.key w.value (expiry w.ttl) b.server)
              (key.not_rule w.rule) not_listed),
      )
