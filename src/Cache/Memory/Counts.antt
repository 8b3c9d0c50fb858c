-- ===== src/Cache/Memory/Counts.antt =====
-- The counters of memory_backend.py against the calls that came back.
use hse_graduate_qualificati.Base.{
  ℕ, ◌+◌, String, ◌≡◌, refl, Bool, true, false, List, [], ◌∷◌, arith, ◌∙◌, if◌then◌else◌,
}
use hse_graduate_qualificati.Base.Dict.{remove}
use hse_graduate_qualificati.Base.Exec.{Result, ok, raise, Exec, after}
use hse_graduate_qualificati.Cache.Backend.{CacheCounters, Write, count_invalidation}
use hse_graduate_qualificati.Cache.Backend.History.{Call, Log, logged, call, run}
use hse_graduate_qualificati.Cache.Ttl.{TtlCaches}
use hse_graduate_qualificati.Cache.Memory.{
  MemoryBackend, backend, get, finish_get, set_with_indexes, store, evict, evict_all, del_by_rule,
  del_by_tag, flush, index_keys, leave_tags, leave_rules,
}

-- How many calls of a log pass a test.
unfoldable pub count_calls : (Call → Bool) → Log → ℕ
count_calls test [] = 0
count_calls test ((t, c) ∷ log) = (if test c then 1 else 0) + count_calls test log

abbrev pub is_get : Call → Bool
is_get (Call.get k) = true
is_get _ = false

abbrev pub is_set : Call → Bool
is_set (Call.set_with_indexes w) = true
is_set _ = false

abbrev pub is_invalidation : Call → Bool
is_invalidation (Call.del_by_rule r) = true
is_invalidation (Call.del_by_tag t) = true
is_invalidation _ = false

-- The counters are those of a backend that has answered exactly the log's calls.
pub record Accounts (c : CacheCounters) (log : Log) : Type 0 where
  pub reads : c.hits + c.misses ≡ count_calls is_get log
  pub writes : c.sets ≡ count_calls is_set log
  pub deletes : c.invalidations ≡ count_calls is_invalidation log

module _ (T : TtlCaches) where
  evict-counters :
      (now : ℕ) (k : String) (b : MemoryBackend T) → (evict T now k b).1.counters ≡ b.counters
  unfolding evict
  evict-counters now k b = ground arith

  after-counters :
      (r : Result (Unit {0}) × MemoryBackend T) (f : Exec (MemoryBackend T) (Unit {0}))
      → ((b : MemoryBackend T) → (f b).1.counters ≡ b.counters)
      → (after r (λ _. f)).1.counters ≡ r.1.counters
  after-counters (ok a, s) f h = h s
  after-counters (raise e, s) f h = refl

  evict_all-counters :
      (now : ℕ) (keys : List String) (b : MemoryBackend T)
      → (evict_all T now keys b).1.counters ≡ b.counters
  unfolding evict_all
  evict_all-counters now [] b = refl
  evict_all-counters now (k ∷ keys) b =
      after-counters (evict T now k b) (evict_all T now keys) (evict_all-counters now keys)
      ∙ evict-counters now k b

  module _ (t : ℕ) (log : Log) where
    get-Accounts :
        (k : String) (b : MemoryBackend T)
        → Accounts b.counters log
        → Accounts (get T t k b).1.counters (logged (get T t k b).0 (t, Call.get k) log)
    unfolding get finish_get count_calls
    get-Accounts k b h = ground arith

    set_with_indexes-Accounts :
        (w : Write) (b : MemoryBackend T)
        → Accounts b.counters log
        → Accounts
            (set_with_indexes T t w b).1.counters
            (logged (set_with_indexes T t w b).0 (t, Call.set_with_indexes w) log)
    unfolding set_with_indexes store count_calls
    set_with_indexes-Accounts w b h = ground arith

    -- the end of a deletion, after the loop over its keys
    deleted-Accounts :
        (c : Call) (r : Result (Unit {0}) × MemoryBackend T)
        → (f : Exec (MemoryBackend T) (Unit {0})) → is_invalidation c ≡ true
        → is_get c ≡ false
        → is_set c ≡ false
        → ((b : MemoryBackend T) → (f b).0 ≡ ok tt)
        → ((b : MemoryBackend T) → (f b).1.counters ≡ count_invalidation b.counters)
        → Accounts r.1.counters log
        → Accounts (after r (λ _. f)).1.counters (logged (after r (λ _. f)).0 (t, c) log)
    unfolding count_calls
    deleted-Accounts c (ok a, s) f i g w fine counted h = rw (fine s, counted s) (ground arith)
    deleted-Accounts c (raise e, s) f i g w fine counted h = h

    del_by_rule-Accounts :
        (r : String) (b : MemoryBackend T)
        → Accounts b.counters log
        → Accounts
            (del_by_rule T t r b).1.counters
            (logged (del_by_rule T t r b).0 (t, Call.del_by_rule r) log)
    unfolding del_by_rule
    del_by_rule-Accounts r b h =
        let keys = index_keys r b.rule_index in
        let start : MemoryBackend T = record b { rule_index = remove r b.rule_index } in
        deleted-Accounts (Call.del_by_rule r) (evict_all T t keys start) (leave_tags T keys) refl
          refl refl (λ s. refl) (λ s. refl) (rw (evict_all-counters t keys start) h)

    del_by_tag-Accounts :
        (tag : String) (b : MemoryBackend T)
        → Accounts b.counters log
        → Accounts
            (del_by_tag T t tag b).1.counters
            (logged (del_by_tag T t tag b).0 (t, Call.del_by_tag tag) log)
    unfolding del_by_tag
    del_by_tag-Accounts tag b h =
        let keys = index_keys tag b.tag_index in
        let start : MemoryBackend T = record b { tag_index = remove tag b.tag_index } in
        deleted-Accounts (Call.del_by_tag tag) (evict_all T t keys start) (leave_rules T keys) refl
          refl refl (λ s. refl) (λ s. refl) (rw (evict_all-counters t keys start) h)

  call-Accounts :
      (c : ℕ × Call) (b : MemoryBackend T) (log : Log)
      → Accounts b.counters log
      → Accounts (call (backend T) c (b, log)).0.counters (call (backend T) c (b, log)).1
  unfolding call flush count_calls
  call-Accounts (t, Call.get k) b log h = get-Accounts t log k b h
  call-Accounts (t, Call.set_with_indexes w) b log h = set_with_indexes-Accounts t log w b h
  call-Accounts (t, Call.del_by_rule r) b log h = del_by_rule-Accounts t log r b h
  call-Accounts (t, Call.del_by_tag tag) b log h = del_by_tag-Accounts t log tag b h
  call-Accounts (t, Call.flush) b log h = ground arith

  -- From counters that account for a log, after any calls, the counters account for the longer log:
  -- `hits + misses` is the number of reads, `sets` of writes and `invalidations` of deletions by
  -- rule or tag, each among the calls that did not raise.
  pub run-Accounts :
      (calls : List (ℕ × Call)) (b : MemoryBackend T) (log : Log)
      → Accounts b.counters log
      → Accounts (run (backend T) calls (b, log)).0.counters (run (backend T) calls (b, log)).1
  unfolding run
  run-Accounts [] b log h = h
  run-Accounts (c ∷ calls) b log h =
      let (b', log') = call (backend T) c (b, log) in
      run-Accounts calls b' log' (call-Accounts c b log h)
