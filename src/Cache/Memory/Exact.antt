-- ===== src/Cache/Memory/Exact.antt =====
-- What `get` of memory_backend.py answers after `del_by_rule` and `del_by_tag`.
use hse_graduate_qualificati.Base.{
  ℕ, ◌≤◌, String, ◌≡◌, ◌≢◌, refl, sym, ap, ◌∙◌, false, Option, none, some, List, [], ◌∷◌, ◌==◌,
  eq_refl, contains, if◌then◌else◌, text_cases, Option-cases, Bool-cases, inl, inr, differs_of_ne,
  eq_iff,
}
use hse_graduate_qualificati.Base.Dict.{
  Dict, lookup, insert, remove, lookup-insert, lookup-remove, lookup_of_has_key,
}
use hse_graduate_qualificati.Base.Exec.{ok, after-ok}
use hse_graduate_qualificati.Cache.Backend.{Bytes}
use hse_graduate_qualificati.Cache.Backend.Ideal.{Ideal, drop_rule, drop_tag}
use hse_graduate_qualificati.Cache.Ttl.{TtlCaches, TtlLaws, peek}
use hse_graduate_qualificati.Cache.Memory.{
  MemoryBackend, index_keys, get, evict, evict_all, del_by_rule, del_by_tag, leave_tags,
  leave_rules,
}
use hse_graduate_qualificati.Cache.Memory.Deletes.{del_by_rule-Models, del_by_tag-Models}
use hse_graduate_qualificati.Cache.Memory.Evict.{
  IsPlaced, Evicted-IsPlaced, evict-Evicted, evict_all-Evicted,
}
use hse_graduate_qualificati.Cache.Memory.Models.{Models}
use hse_graduate_qualificati.Dsl.Schema.{CacheProfile}

module _ (T : TtlCaches) where
  -- What the profile's cache, if there is one, shows of the key at `t`.
  abbrev shown_in : ℕ → String → Option T.Cache → Option Bytes
  shown_in t k none = none
  shown_in t k (some c) = peek T t k c

  abbrev shown_at : ℕ → String → Dict T.Cache → Option String → Option Bytes
  shown_at t k caches none = none
  shown_at t k caches (some p) = shown_in t k (lookup p caches)

  get-shown :
      (t : ℕ) (k : String) (b : MemoryBackend T)
      → IsPlaced T b
      → (get T t k b).0 ≡ ok (shown_at t k b.caches (lookup k b.key_profile))
  unfolding get
  get-shown t k b placed = elim (Option-cases (lookup k b.key_profile)) [
    | inl absent ↦ rw (absent, get) refl
    | inr (p, found) ↦
        let (c, cache) = lookup_of_has_key p b.caches (placed k p found) in
        elim (Option-cases (T.get t k c).0) [
          | inl miss ↦ rw (found, cache, get, miss) refl
          | inr (v, hit) ↦ rw (found, cache, get, hit) refl
        ]
  ]

  module _ (L : TtlLaws T) where
    shown_in-popped :
        (now t : ℕ) (key k p : String) (c : T.Cache) (caches : Dict T.Cache) (o : Option String)
        → key ≢ k
        → now ≤ t
        → lookup p caches ≡ some c
        → shown_at t k (insert p (T.pop now key c) caches) o ≡ shown_at t k caches o
    shown_in-popped now t key k p c caches none differs le here = refl
    shown_in-popped now t key k p c caches (some q) differs le here =
        rw lookup-insert (elim (text_cases p q) [
          | inl same ↦ rw (← same, eq_refl p, here) (L.peek-pop_ne now t key k c differs le)
          | inr other ↦ rw other refl
        ])

    -- Another key shows what it did.
    evict-shown :
        (now t : ℕ) (key k : String) (b : MemoryBackend T)
        → IsPlaced T b
        → key ≢ k
        → now ≤ t
        → shown_at t k (evict T now key b).1.caches (lookup k (evict T now key b).1.key_profile)
          ≡ shown_at t k b.caches (lookup k b.key_profile)
    unfolding evict
    evict-shown now t key k b placed differs le = elim (Option-cases (lookup key b.key_profile)) [
      | inl absent ↦ rw (absent, evict) refl
      | inr (p, found) ↦
          let (c, cache) = lookup_of_has_key p b.caches (placed key p found) in
          let stays : lookup k (remove key b.key_profile) ≡ lookup k b.key_profile =
            rw (lookup-remove, differs_of_ne key k differs) refl in
          rw (found, cache, evict, stays)
            (shown_in-popped now t key k p c b.caches (lookup k b.key_profile) differs le cache)
    ]

    evict_all-shown :
        (now t : ℕ) (keys : List String) (k : String) (b : MemoryBackend T)
        → IsPlaced T b
        → contains k keys ≡ false
        → now ≤ t
        → shown_at t k
            (evict_all T now keys b).1.caches
            (lookup k (evict_all T now keys b).1.key_profile)
          ≡ shown_at t k b.caches (lookup k b.key_profile)
    unfolding evict_all contains
    evict_all-shown now t [] k b placed out le = refl
    evict_all-shown now t (key ∷ keys) k b placed out le = elim (Bool-cases (key == k)) [
      | inl same ↦ cc (rw same at out)
      | inr differs ↦
          let other : key ≢ k = λ same. cc (differs, (eq_iff key k).1 same) in
          let (fine, e) = evict-Evicted T L now key b placed in
          let b' = (evict T now key b).1 in
          rw (after-ok (evict T now key b) (λ _. evict_all T now keys) fine) (
            evict_all-shown now t keys k b' (Evicted-IsPlaced T (key ∷ []) b' b e placed)
              (rw differs at out) le
            ∙ evict-shown now t key k b placed other le)
    ]

    -- After the loop the keys it took out are shown no more, and all others as before.
    evict_all-exact :
        (now t : ℕ) (keys : List String) (k : String) (b : MemoryBackend T)
        → IsPlaced T b
        → now ≤ t
        → shown_at t k
            (evict_all T now keys b).1.caches
            (lookup k (evict_all T now keys b).1.key_profile)
          ≡ (if contains k keys then none else shown_at t k b.caches (lookup k b.key_profile))
    evict_all-exact now t keys k b placed le = elim (Bool-cases (contains k keys)) [
      | inr out ↦ rw out (evict_all-shown now t keys k b placed out le)
      | inl listed ↦
          let (_, e) = evict_all-Evicted T L now keys b placed in rw (listed, e.keys k, listed) refl
    ]

    module _ (profiles : Dict CacheProfile) where
      answers_of :
          (t : ℕ) (k : String) (keys : List String) (b' b : MemoryBackend T)
          → IsPlaced T b'
          → IsPlaced T b
          → shown_at t k b'.caches (lookup k b'.key_profile)
            ≡ (if contains k keys then none else shown_at t k b.caches (lookup k b.key_profile))
          → (get T t k b').0 ≡ (if contains k keys then ok none else (get T t k b).0)
      answers_of t k keys b' b placed' placed h = elim (Bool-cases (contains k keys)) [
        | inl listed ↦ rw listed (get-shown t k b' placed' ∙ ap ok (rw listed at h))
        | inr other ↦
            rw other
              (get-shown t k b' placed' ∙ ap ok (rw other at h) ∙ sym (get-shown t k b placed))
      ]

      -- In a state that stands for an ideal cache, `del_by_rule` comes back, and the backend then
      -- stands for the ideal cache without the rule's entries. From then on `get` misses each key that
      -- the rule's index listed, and answers for each other key what it would have answered without
      -- the call.
      pub get-del_by_rule :
          (b : MemoryBackend T) (m : Ideal) (now t : ℕ) (rule k : String)
          → Models T profiles b m
          → now ≤ t
          → ((del_by_rule T now rule b).0 ≡ ok tt)
            × Models T profiles (del_by_rule T now rule b).1 (drop_rule rule m)
            × ((get T t k (del_by_rule T now rule b).1).0
                ≡ (if contains k (index_keys rule b.rule_index) then ok none else (get T t k b).0))
      unfolding del_by_rule
      get-del_by_rule b m now t rule k h le =
          let keys = index_keys rule b.rule_index in
          let start : MemoryBackend T = record b { rule_index = remove rule b.rule_index } in
          let (fine, _) = evict_all-Evicted T L now keys start h.placed in
          let (returns, stands) = del_by_rule-Models T L profiles b m now rule h in
          let is : (del_by_rule T now rule b) ≡ leave_tags T keys (evict_all T now keys start).1 =
            after-ok (evict_all T now keys start) (λ _. leave_tags T keys) fine in
          let shows : shown_at t k (del_by_rule T now rule b).1.caches
                (lookup k (del_by_rule T now rule b).1.key_profile)
              ≡ (if contains k keys then none else shown_at t k b.caches (lookup k b.key_profile)) =
            rw is (evict_all-exact now t keys k start h.placed le) in
          (
            returns,
            stands,
            answers_of t k keys (del_by_rule T now rule b).1 b stands.placed h.placed shows,
          )

      -- In a state that stands for an ideal cache, `del_by_tag` comes back, and the backend then stands
      -- for the ideal cache without the tag's entries. From then on `get` misses each key that the
      -- tag's index listed, and answers for each other key what it would have answered without the
      -- call.
      pub get-del_by_tag :
          (b : MemoryBackend T) (m : Ideal) (now t : ℕ) (tag k : String)
          → Models T profiles b m
          → now ≤ t
          → ((del_by_tag T now tag b).0 ≡ ok tt)
            × Models T profiles (del_by_tag T now tag b).1 (drop_tag tag m)
            × ((get T t k (del_by_tag T now tag b).1).0
                ≡ (if contains k (index_keys tag b.tag_index) then ok none else (get T t k b).0))
      unfolding del_by_tag
      get-del_by_tag b m now t tag k h le =
          let keys = index_keys tag b.tag_index in
          let start : MemoryBackend T = record b { tag_index = remove tag b.tag_index } in
          let (fine, _) = evict_all-Evicted T L now keys start h.placed in
          let (returns, stands) = del_by_tag-Models T L profiles b m now tag h in
          let is : (del_by_tag T now tag b) ≡ leave_rules T keys (evict_all T now keys start).1 =
            after-ok (evict_all T now keys start) (λ _. leave_rules T keys) fine in
          let shows : shown_at t k (del_by_tag T now tag b).1.caches
                (lookup k (del_by_tag T now tag b).1.key_profile)
              ≡ (if contains k keys then none else shown_at t k b.caches (lookup k b.key_profile)) =
            rw is (evict_all-exact now t keys k start h.placed le) in
          (
            returns,
            stands,
            answers_of t k keys (del_by_tag T now tag b).1 b stands.placed h.placed shows,
          )
