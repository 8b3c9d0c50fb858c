-- ===== src/Cache/Memory.antt =====
-- framework/cache/memory_backend.py: `MemoryBackend`. Each method holds the one asyncio lock, so it
-- is one step. An object that a method changes in place is written back into the dict that holds it.
pub mod Index
pub mod Models
pub mod Evict
pub mod Deletes
pub mod Exact
pub mod Reads
pub mod Writes
pub mod Refines
pub mod Fresh
pub mod Counts
pub mod Accepted
use Prim.Native.String.{◌++◌}
use hse_graduate_qualificati.Base.{
  ℕ, zero, suc, String, ◌≡◌, Bool, true, false, Option, none, some, List, [], ◌∷◌, set_add,
  difference_update, if◌then◌else◌,
}
use hse_graduate_qualificati.Base.Dict.{Dict, lookup, insert, remove, map_values}
use hse_graduate_qualificati.Base.Exec.{
  Result, ok, raise, Exec, after, value_error, key_error, runtime_error, ◌>>=◌,
}
use hse_graduate_qualificati.Cache.Backend.{
  Bytes, CacheCounters, CacheBackend, Write, count_hit, count_miss, count_set, count_invalidation,
}
use hse_graduate_qualificati.Cache.Ttl.{TtlCaches}
use hse_graduate_qualificati.Dsl.Schema.{CacheProfile, BackendKind, is_in_memory}

-- A forward index, from a rule or a tag to its set of keys.
abbrev pub Index : Type 0
Index = Dict (List String)

-- `index.get(name, set())`
unfoldable pub index_keys : String → Index → List String
index_keys name index = elim (lookup name index) [ none ↦ [] | some keys ↦ keys ]

-- `index.setdefault(name, set()).add(key)`
unfoldable pub index_add : String → String → Index → Index
unfolding index_keys
index_add name key index = insert name (set_add key (index_keys name index)) index

-- What `index[name]` becomes when `members` are left: an empty set is deleted.
unfoldable pub keep_nonempty : String → List String → Index → Index
keep_nonempty name [] rest = rest
keep_nonempty name (k ∷ ks) rest = (name, k ∷ ks) ∷ rest

-- The loop over the other index: the keys are taken out, and what becomes empty is deleted.
unfoldable pub index_discard : List String → Index → Index
unfolding keep_nonempty
index_discard keys [] = []
index_discard keys ((name, members) ∷ index) =
    keep_nonempty name (difference_update members keys) (index_discard keys index)

-- the loop `for tag in tags`
unfoldable pub index_tags : List String → String → Index → Index
unfolding index_add
index_tags [] key index = index
index_tags (tag ∷ tags) key index = index_tags tags key (index_add tag key index)

-- `ttl = prof.ttl_seconds if prof.ttl_seconds > 0 else math.inf`
unfoldable pub cache_ttl : CacheProfile → Option ℕ
cache_ttl prof = elim prof.ttl_seconds [ zero ↦ none | suc n ↦ some (suc n) ]

module _ (T : TtlCaches) where
  pub record MemoryBackend : Type 0 where
    pub caches : Dict T.Cache
    pub key_profile : Dict String
    pub rule_index : Index
    pub tag_index : Index
    pub counters : CacheCounters

  -- one round of the constructor's loop: a redis profile gets no cache
  unfoldable pub new_cache : String → CacheProfile → Result (Option T.Cache)
  new_cache name prof =
      if is_in_memory prof.backend
      then elim prof.max_entries [
        | none ↦
            raise (
              value_error
                ("in_memory profile '" ++ (name ++ "' missing max_entries (loader bug?)")))
        | some size ↦ ok (some (T.new size (cache_ttl prof)))
      ]
      else ok none

  unfoldable pub add_cache : String → Option T.Cache → Dict T.Cache → Dict T.Cache
  add_cache name none caches = caches
  add_cache name (some cache) caches = (name, cache) ∷ caches

  unfoldable pub make_caches : Dict CacheProfile → Result (Dict T.Cache)
  make_caches [] = ok []
  make_caches ((name, prof) ∷ profiles) = do
    cache ← new_cache name prof
    caches ← make_caches profiles
    ok (add_cache name cache caches)

  unfoldable pub init : Dict CacheProfile → CacheCounters → Result MemoryBackend
  init profiles counters = do
    caches ← make_caches profiles
    ok (record {
      caches = caches;
      key_profile = [];
      rule_index = [];
      tag_index = [];
      counters = counters;
    })

  -- the end of `get`, with what the cache answered
  finish_get : String → Option Bytes → MemoryBackend → Result (Option Bytes) × MemoryBackend
  finish_get key none b = (
    ok none,
    record b { key_profile = remove key b.key_profile; counters = count_miss b.counters },
  )
  finish_get key (some value) b = (ok (some value), record b { counters = count_hit b.counters })

  unfoldable pub get : ℕ → String → Exec MemoryBackend (Option Bytes)
  unfolding finish_get
  get now key b = elim (lookup key b.key_profile) [
    | none ↦ (ok none, record b { counters = count_miss b.counters })
    | some profile_name ↦ elim (lookup profile_name b.caches) [
      | none ↦ (raise (key_error profile_name), b)
      | some cache ↦
          let (value, cache') = T.get now key cache in
          finish_get key value (record b { caches = insert profile_name cache' b.caches })
    ]
  ]

  -- `cache[key] = value; self._key_profile[key] = profile_name`
  unfoldable pub store : ℕ → String → T.Cache → String → Bytes → MemoryBackend → MemoryBackend
  store now profile_name cache key value b = record b {
    caches = insert profile_name (T.set now key value cache) b.caches;
    key_profile = insert key profile_name b.key_profile;
  }

  -- `next(iter(self._caches))` is the first key
  unfoldable pub set : ℕ → String → Bytes → ℕ → Exec MemoryBackend (Unit {0})
  unfolding store
  set now key value ttl b = elim b.caches [
    | [] ↦ (raise (runtime_error "MemoryBackend.set requires at least one in_memory profile"), b)
    | (profile_name, cache) ∷ rest ↦
        let b' = store now profile_name cache key value b in
        (ok tt, record b' { counters = count_set b'.counters })
  ]

  unfoldable pub set_with_indexes : ℕ → Write → Exec MemoryBackend (Unit {0})
  unfolding store index_add index_tags
  set_with_indexes now w b = elim (lookup w.profile_name b.caches) [
    | none ↦ (raise (key_error w.profile_name), b)
    | some cache ↦
        let b' = store now w.profile_name cache w.key w.value b in
        (
          ok tt,
          record b' {
            rule_index = index_add w.rule w.key b'.rule_index;
            tag_index = index_tags w.tags w.key b'.tag_index;
            counters = count_set b'.counters;
          },
        )
  ]

  -- the body of `delete`, and of the loops `for key in keys`
  unfoldable pub evict : ℕ → String → Exec MemoryBackend (Unit {0})
  evict now key b = elim (lookup key b.key_profile) [
    | none ↦ (ok tt, b)
    | some profile_name ↦
        let b' = record b { key_profile = remove key b.key_profile } in
        elim (lookup profile_name b.caches) [
          | none ↦ (raise (key_error profile_name), b')
          | some cache ↦
              (ok tt, record b' { caches = insert profile_name (T.pop now key cache) b.caches })
        ]
  ]

  unfoldable pub delete : ℕ → String → Exec MemoryBackend (Unit {0})
  unfolding evict
  delete = evict

  unfoldable pub evict_all : ℕ → List String → Exec MemoryBackend (Unit {0})
  evict_all now [] b = (ok tt, b)
  evict_all now (key ∷ keys) b = after (evict now key b) (λ _. evict_all now keys)

  -- what follows the loop in `del_by_rule`
  abbrev pub leave_tags : List String → Exec MemoryBackend (Unit {0})
  leave_tags keys b = (
    ok tt,
    record b {
      tag_index = index_discard keys b.tag_index;
      counters = count_invalidation b.counters;
    },
  )

  abbrev pub leave_rules : List String → Exec MemoryBackend (Unit {0})
  leave_rules keys b = (
    ok tt,
    record b {
      rule_index = index_discard keys b.rule_index;
      counters = count_invalidation b.counters;
    },
  )

  unfoldable pub del_by_rule : ℕ → String → Exec MemoryBackend (Unit {0})
  del_by_rule now rule b =
      let keys = index_keys rule b.rule_index in
      after (evict_all now keys (record b { rule_index = remove rule b.rule_index }))
        (λ _. leave_tags keys)

  unfoldable pub del_by_tag : ℕ → String → Exec MemoryBackend (Unit {0})
  del_by_tag now tag b =
      let keys = index_keys tag b.tag_index in
      after (evict_all now keys (record b { tag_index = remove tag b.tag_index }))
        (λ _. leave_rules keys)

  unfoldable pub flush : Exec MemoryBackend (Unit {0})
  flush b = (
    ok tt,
    record b {
      caches = map_values T.clear b.caches;
      key_profile = [];
      rule_index = [];
      tag_index = [];
    },
  )

  abbrev pub backend : CacheBackend MemoryBackend
  backend = record {
    get = get;
    set = set;
    set_with_indexes = set_with_indexes;
    delete = delete;
    del_by_rule = del_by_rule;
    del_by_tag = del_by_tag;
    flush = flush;
  }
